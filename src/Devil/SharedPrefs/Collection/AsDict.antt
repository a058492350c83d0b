-- ===== src/Devil/SharedPrefs/Collection/AsDict.antt =====
-- `AsDict`, over the floats and the integers that Python reads.
use car_multimedia_android_a.Base.{Bool, Option, List, [], ◌∷◌, String, str_eq, if◌then◌else◌}
use car_multimedia_android_a.Base.Assoc.{put}
use car_multimedia_android_a.Base.Dict.{lookup}
use car_multimedia_android_a.Devil.SharedPrefs.Elements.{
  Element, key_error, Result, raised, returned, Numbers, PrefClass, boolean_pref, number_pref,
  string_pref, string_set_pref, option_eq,
}
use car_multimedia_android_a.Devil.SharedPrefs.Collection.{SharedPrefs, read}

module _ (Floats Ints : Numbers) where
  -- A value of any of the classes
  pub data Value : Type 0 where
    boolean : Bool → Value
    float : Floats.Number → Value
    int : Ints.Number → Value
    string : Option String → Value
    set : List (Option String) → Value

  abbrev pub and_then : {A B : Type 0} → Result A → (A → Result B) → Result B
  and_then (raised e) k = raised e
  and_then (returned a) k = k a

  abbrev pub read_as : (C : PrefClass) → (C.Value → Value) → Element → Result Value
  read_as C f e = and_then (read C e) (λ v. returned (f v))

  -- `_PREF_TYPES[child.tag](child).get()`
  unfoldable pub pref_value : Element → Result Value
  unfolding read
  pref_value e =
      if str_eq e.tag "boolean"
      then read_as boolean_pref boolean e
      else if str_eq e.tag "float"
      then read_as (number_pref Floats "float") float e
      else if str_eq e.tag "int"
      then read_as (number_pref Ints "int") int e
      else if str_eq e.tag "long"
      then read_as (number_pref Ints "long") int e
      else if str_eq e.tag "string"
      then read_as string_pref string e
      else if str_eq e.tag "set"
      then read_as string_set_pref set e
      else raised key_error

  -- The loop of AsDict, with the dict so far
  unfoldable pub add_children :
      List Element → List (Option String × Value) → Result (List (Option String × Value))
  unfolding pref_value put
  add_children [] d = returned d
  add_children (e ∷ es) d =
      and_then (pref_value e) (λ v. add_children es (put option_eq (lookup "name" e.attrib) v d))

  -- `AsDict`
  abbrev pub as_dict : SharedPrefs → Result (List (Option String × Value))
  as_dict s = add_children s.xml []
