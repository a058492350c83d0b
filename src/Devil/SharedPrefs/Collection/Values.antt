-- ===== src/Devil/SharedPrefs/Collection/Values.antt =====
-- What a class of preferences owes to the collection for a value that is set, and that the classes
-- of the source keep it.
use car_multimedia_android_a.Base.{
  ◌≡◌, refl, ap, Bool, true, false, Option, none, some, List, [], ◌∷◌, map, String, arith, eq_iff,
}
use car_multimedia_android_a.Base.Dict.{lookup, lookup-insert}
use car_multimedia_android_a.Devil.SharedPrefs.Elements.{
  Element, returned, PrefClass, Numbers, set_value, get_value, get_boolean, set_boolean,
  boolean_pref, get_number, set_number, number_pref, get_string, set_string, string_pref, texts_of,
  items_of, get_string_set, set_string_set, options_eq, string_set_pref,
}

-- A value that `set` writes so that `get` reads it back, and that is not None.
pub record IsSettable (C : PrefClass) (v : C.Value) : Type 0 where
  pub get-set : (e : Element) → C.get (C.set v e) ≡ returned v
  pub tag-set : (e : Element) → (C.set v e).tag ≡ e.tag
  pub name-set : (e : Element) → lookup "name" (C.set v e).attrib ≡ lookup "name" e.attrib
  pub eq_sound : (u : C.Value) → C.eq u v ≡ true → u ≡ v
  pub not_none : C.is_none v ≡ false

get_value-set_value : (v : String) (e : Element) → get_value (set_value v e) ≡ some v
get_value-set_value v e = lookup-insert "value" "value" v e.attrib

name-set_value :
    (v : String) (e : Element) → lookup "name" (set_value v e).attrib ≡ lookup "name" e.attrib
name-set_value v e = lookup-insert "value" "name" v e.attrib

-- Either Boolean is settable.
pub boolean_pref-IsSettable : (v : Bool) → IsSettable boolean_pref v
unfolding get_boolean set_boolean
boolean_pref-IsSettable true = record {
  get-set = λ e. ground (arith, get_value-set_value "true" e);
  tag-set = λ _. refl;
  name-set = name-set_value "true";
  eq_sound = elim [ true ↦ λ _. refl | false ↦ λ p. p ];
  not_none = refl;
}
boolean_pref-IsSettable false = record {
  get-set = λ e. ground (arith, get_value-set_value "false" e);
  tag-set = λ _. refl;
  name-set = name-set_value "false";
  eq_sound = elim [ true ↦ λ p. absurd (cc) | false ↦ λ _. refl ];
  not_none = refl;
}

-- A number that is read back from its printed form is settable, whatever the tag.
pub number_pref-IsSettable :
    (N : Numbers) (tag : String) (v : N.Number)
    → N.parse (N.str v) ≡ some v
    → ((u : N.Number) → N.eq u v ≡ true → u ≡ v)
    → IsSettable (number_pref N tag) v
unfolding get_number set_number
number_pref-IsSettable N tag v p q = record {
  get-set = λ e. ground (arith, get_value-set_value (N.str v) e);
  tag-set = λ _. refl;
  name-set = name-set_value (N.str v);
  eq_sound = q;
  not_none = refl;
}

-- Any text is settable.
pub string_pref-IsSettable : (t : String) → IsSettable string_pref (some t)
unfolding get_string set_string
string_pref-IsSettable t = record {
  get-set = λ _. refl;
  tag-set = λ _. refl;
  name-set = λ _. refl;
  eq_sound = elim [ none ↦ λ p. absurd (cc) | some u ↦ λ p. ap some ((eq_iff u t).0 p) ];
  not_none = refl;
}

texts_of-items_of : (ts : List String) → texts_of (items_of (map some ts)) ≡ returned (map some ts)
unfolding texts_of items_of
texts_of-items_of [] = refl
texts_of-items_of (t ∷ ts) = ground (arith, texts_of-items_of ts)

options_eq_sound :
    (us : List (Option String)) (ts : List String)
    → options_eq us (map some ts) ≡ true
    → us ≡ map some ts
options_eq_sound [] [] p = refl
options_eq_sound [] (t ∷ ts) p = absurd (cc)
options_eq_sound (u ∷ us) [] p = absurd (cc)
options_eq_sound (none ∷ us) (t ∷ ts) p = absurd (cc)
options_eq_sound (some u ∷ us) (t ∷ ts) p = ground (arith, eq_iff u t, options_eq_sound us ts)

-- Any list of texts is settable.
pub string_set_pref-IsSettable : (ts : List String) → IsSettable string_set_pref (map some ts)
unfolding get_string_set set_string_set
string_set_pref-IsSettable ts = record {
  get-set = λ _. texts_of-items_of ts;
  tag-set = λ _. refl;
  name-set = λ _. refl;
  eq_sound = λ us. options_eq_sound us ts;
  not_none = refl;
}
