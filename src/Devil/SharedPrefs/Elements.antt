-- ===== src/Devil/SharedPrefs/Elements.antt =====
-- `BasePref` and its subclasses: typed access to an xml element. An element of ElementTree is a
-- value here; where Python changes one in place, the new one is returned.
use car_multimedia_android_a.Base.{
  Bool, true, false, ◌&&◌, not, is_some, Option, none, some, List, [], ◌∷◌, String, str_eq,
  if◌then◌else◌,
}
use car_multimedia_android_a.Base.Dict.{Dict, lookup, insert}

-- A child of a set element.
pub record Item : Type 0 where
  pub tag : String
  pub text : Option String

pub record Element : Type 0 where
  pub tag : String
  pub attrib : Dict String
  pub text : Option String
  pub items : List Item

-- The exceptions, by class.
pub data Error : Type 0 where
  key_error type_error value_error assertion_error index_error parse_error : Error
  command_failed : Error

pub data Result {ℓ} (A : Type ℓ) : Type ℓ where
  raised : Error → Result A
  returned : A → Result A

-- A subclass of BasePref: its tag, its `get` and its `set`, and of its values `==` and being None.
pub record PrefClass : Type 1 where
  pub Value : Type 0
  pub tag_name : String
  pub get : Element → Result Value
  pub set : Value → Element → Element
  pub eq : Value → Value → Bool
  pub is_none : Value → Bool

-- `BasePref.get`
abbrev pub get_value : Element → Option String
get_value e = lookup "value" e.attrib

-- `BasePref.set`, on the value as a text
abbrev pub set_value : String → Element → Element
set_value v e = record e { attrib = insert "value" v e.attrib }

-- `BasePref.has_value`
abbrev pub has_value : Element → Bool
has_value e = elim (get_value e) [ none ↦ false | some _ ↦ true ]

-- `BooleanPref.VALUES[...]`
abbrev pub boolean_of : Option String → Result Bool
boolean_of none = raised key_error
boolean_of (some v) =
    if str_eq v "true"
    then returned true
    else if str_eq v "false"
    then returned false
    else raised key_error

abbrev pub bool_eq : Bool → Bool → Bool
bool_eq true b = b
bool_eq false true = false
bool_eq false false = true

unfoldable pub get_boolean : Element → Result Bool
get_boolean e = boolean_of (get_value e)

unfoldable pub set_boolean : Bool → Element → Element
set_boolean value e = set_value (if value then "true" else "false") e

abbrev pub boolean_pref : PrefClass
boolean_pref = record {
  Value = Bool;
  tag_name = "boolean";
  get = get_boolean;
  set = set_boolean;
  eq = bool_eq;
  is_none = λ _. false;
}

-- `int(...)` or `float(...)` of what may be None, which is a TypeError; `none` of the parser is a
-- ValueError.
abbrev pub number_of : {N : Type 0} → (String → Option N) → Option String → Result N
number_of parse none = raised type_error
number_of parse (some v) = elim (parse v) [ none ↦ raised value_error | some n ↦ returned n ]

-- Numbers that Python reads from texts and prints: ints and longs alike, and floats.
pub record Numbers : Type 1 where
  pub Number : Type 0
  pub parse : String → Option Number
  pub str : Number → String
  pub eq : Number → Number → Bool

module _ (N : Numbers) where
  unfoldable pub get_number : Element → Result N.Number
  get_number e = number_of N.parse (get_value e)

  unfoldable pub set_number : N.Number → Element → Element
  set_number value e = set_value (N.str value) e

  -- `FloatPref`, `IntPref` and `LongPref`, by the tag
  abbrev pub number_pref : String → PrefClass
  number_pref tag_name = record {
    Value = N.Number;
    tag_name = tag_name;
    get = get_number;
    set = set_number;
    eq = N.eq;
    is_none = λ _. false;
  }

abbrev pub option_eq : Option String → Option String → Bool
option_eq none none = true
option_eq none (some b) = false
option_eq (some a) none = false
option_eq (some a) (some b) = str_eq a b

unfoldable pub get_string : Element → Result (Option String)
get_string e = returned e.text

-- A value None is written as 'None'.
unfoldable pub set_string : Option String → Element → Element
set_string none e = record e { text = some "None" }
set_string (some v) e = record e { text = some v }

abbrev pub string_pref : PrefClass
string_pref = record {
  Value = Option String;
  tag_name = "string";
  get = get_string;
  set = set_string;
  eq = option_eq;
  is_none = λ v. not (is_some v);
}

unfoldable pub texts_of : List Item → Result (List (Option String))
texts_of [] = returned []
texts_of (i ∷ is) =
    let rest = texts_of is in
    if str_eq i.tag "string"
    then elim rest [ raised e ↦ raised e | returned ts ↦ returned (i.text ∷ ts) ]
    else raised assertion_error

-- `str(item)`
abbrev pub str_of : Option String → String
str_of none = "None"
str_of (some t) = t

unfoldable pub items_of : List (Option String) → List Item
items_of [] = []
items_of (t ∷ ts) = record { tag = "string"; text = some (str_of t) } ∷ items_of ts

unfoldable pub get_string_set : Element → Result (List (Option String))
unfolding texts_of
get_string_set e = texts_of e.items

unfoldable pub set_string_set : List (Option String) → Element → Element
unfolding items_of
set_string_set value e = record e { items = items_of value }

abbrev pub options_eq : List (Option String) → List (Option String) → Bool
options_eq [] [] = true
options_eq [] (y ∷ ys) = false
options_eq (x ∷ xs) [] = false
options_eq (x ∷ xs) (y ∷ ys) = option_eq x y && options_eq xs ys

abbrev pub string_set_pref : PrefClass
string_set_pref = record {
  Value = List (Option String);
  tag_name = "set";
  get = get_string_set;
  set = set_string_set;
  eq = options_eq;
  is_none = λ _. false;
}
