-- ===== src/Devil/SharedPrefs/Tests.antt =====
-- Runs of `SharedPrefs` on concrete documents, and of the theorems about it.
use Prim.Native.String.{slice, len as byte_len}
use car_multimedia_android_a.Base.{
  str_eq, ◌≡◌, refl, Bool, List, ◌<>◌, ◌-◌, if◌then◌else◌, true, false, none, some, [], ◌∷◌, String,
  is_some, arith, eq_refl,
}
use car_multimedia_android_a.Base.Dict.{Dict, lookup, insert, lookup-insert}
use car_multimedia_android_a.Devil.SharedPrefs.Elements.{
  Element, key_error, type_error, command_failed, raised, returned, boolean_pref, string_pref,
  get_boolean,
}
use car_multimedia_android_a.Devil.SharedPrefs.Collection.{
  SharedPrefs, new_shared_prefs, get_child, read, get_pref, set_pref_value, append_pref, drop_child,
  remove,
}
use car_multimedia_android_a.Devil.SharedPrefs.Collection.Values.{boolean_pref-IsSettable}
use car_multimedia_android_a.Devil.SharedPrefs.Collection.Set.{
  IsWritable, present, get_pref-set_pref_value, get_child-set_pref_value_other,
  get_pref-set_pref_value_unreadable,
}
use car_multimedia_android_a.Devil.SharedPrefs.Collection.Changed.{set_pref_value-type_error}
use car_multimedia_android_a.Devil.SharedPrefs.Collection.AsDict.{as_dict, add_children, boolean}
use car_multimedia_android_a.Devil.SharedPrefs.Elements.{Numbers}
use car_multimedia_android_a.Devil.SharedPrefs.Commit.{
  words_from, Device, Xml, xml_declaration, commit, load, split, get_security_context,
  apply_context, save,
}
use car_multimedia_android_a.Devil.SharedPrefs.Commit.Laws.{IsLawful, load-commit, commit-remove}

abbrev boolean_element : String → String → Element
boolean_element key v = record {
  tag = "boolean";
  attrib = ("name", key) ∷ ("value", v) ∷ [];
  text = none;
  items = [];
}

abbrev sound_on : Element
sound_on = boolean_element "sound" "true"

abbrev loaded : SharedPrefs
loaded = record {
  package_name = "com.app";
  filename = "a.xml";
  xml = sound_on ∷ [];
  changed = false;
}

-- As `True` in place of `true` is written by hand
abbrev misspelt : SharedPrefs
misspelt = record loaded { xml = boolean_element "sound" "True" ∷ [] }

abbrev muted : SharedPrefs
muted = record loaded { xml = boolean_element "sound" "false" ∷ []; changed = true }

-- A text that does not end in a line break gets one.
abbrev as_read : String → String
as_read t = if str_eq (slice t (byte_len t - 1) (byte_len t)) "\n" then t else t <> "\n"

abbrev files : Device
files = record {
  State = Dict String;
  file_exists = λ p d. is_some (lookup p d);
  read_file =
      λ p d. elim (lookup p d) [ none ↦ raised command_failed | some t ↦ returned (as_read t) ];
  write_file = λ p t d. (returned tt, insert p t d);
  run_shell_command = λ _ d. (returned ("u:object_r:app_data_file com.app" ∷ []), d);
  kill_all = λ _ d. (returned tt, d);
  build_version_sdk = λ _. 23;
}

-- The document of one boolean property
abbrev sound_document : String → String
sound_document v = "<map><boolean name=\"sound\" value=\"" <> v <> "\" /></map>"

abbrev print_elements : List Element → String
print_elements [] = "<map />"
print_elements (e ∷ _) = elim (lookup "value" e.attrib) [
  | none ↦ "<map />"
  | some v ↦ sound_document v
]

abbrev is_document : String → String → Bool
is_document t document = str_eq t (xml_declaration <> document <> "\n")

-- The empty document and those of one boolean property, the `sound`
abbrev sound_xml : Xml
sound_xml = record {
  fromstring = λ t.
      if is_document t "<map />"
      then some ("map", [])
      else if is_document t (sound_document "true")
      then some ("map", boolean_element "sound" "true" ∷ [])
      else if is_document t (sound_document "false")
      then some ("map", boolean_element "sound" "false" ∷ [])
      else none;
  tostring = print_elements;
}

files-IsLawful : IsLawful files as_read
files-IsLawful = record {
  exists-write_file = λ p t d _. ground (arith, lookup-insert p p t d, eq_refl p);
  read_file-write_file = λ p t d _. ground (arith, lookup-insert p p t d, eq_refl p);
  exists-run_shell_command = λ _ _ _. refl;
  read_file-run_shell_command = λ _ _ _. refl;
  exists-kill_all = λ _ _ _. refl;
  read_file-kill_all = λ _ _ _. refl;
}

split_a_listing :
    split " u:object_r:app_data_file:s0  com.app" ≡ "u:object_r:app_data_file:s0" ∷ "com.app" ∷ []
unfolding words_from
split_a_listing = refl

-- The context of the package is found among the columns of its line.
context_of_a_package :
    get_security_context files sound_xml "com.app" []
    ≡ (returned (some "u:object_r:app_data_file"), [])
unfolding get_security_context words_from
context_of_a_package = refl

loaded-IsWritable : IsWritable boolean_pref "sound" loaded
unfolding get_child read get_boolean lookup
loaded-IsWritable = present sound_on true refl refl

get_pref-set_pref_value_example :
    ((set_pref_value boolean_pref "sound" false loaded).0 ≡ returned tt)
    × (get_pref boolean_pref "sound" (set_pref_value boolean_pref "sound" false loaded).1
        ≡ returned false)
get_pref-set_pref_value_example =
    get_pref-set_pref_value boolean_pref "sound" false loaded (boolean_pref-IsSettable false)
      loaded-IsWritable

get_child-set_pref_value_other_example :
    get_child "vibrate" (set_pref_value boolean_pref "sound" false loaded).1.xml
    ≡ get_child "vibrate" loaded.xml
get_child-set_pref_value_other_example =
    get_child-set_pref_value_other boolean_pref "sound" false loaded (boolean_pref-IsSettable false)
      loaded-IsWritable "vibrate" refl

get_pref-set_pref_value_unreadable_example :
    (set_pref_value boolean_pref "sound" false misspelt
      ≡ (returned tt, append_pref boolean_pref "sound" false misspelt))
    × (get_pref boolean_pref "sound" (append_pref boolean_pref "sound" false misspelt)
        ≡ raised key_error)
unfolding get_child read get_boolean lookup
get_pref-set_pref_value_unreadable_example =
    get_pref-set_pref_value_unreadable boolean_pref "sound" false misspelt
      (boolean_element "sound" "True") refl refl

set_pref_value-type_error_example :
    set_pref_value string_pref "sound" (some "loud") loaded ≡ (raised type_error, loaded)
unfolding get_child lookup
set_pref_value-type_error_example =
    set_pref_value-type_error string_pref "sound" (some "loud") loaded sound_on refl refl

load-commit_example :
    load files sound_xml (new_shared_prefs "com.app" "a.xml") (commit files sound_xml muted []).1.1
    ≡ (returned tt, record muted { changed = false })
unfolding commit save apply_context get_security_context words_from lookup
load-commit_example = load-commit files sound_xml as_read files-IsLawful muted [] refl refl refl

commit-remove_example :
    (remove "sound" loaded ≡ (returned tt, record loaded { xml = drop_child "sound" loaded.xml }))
    × (commit files sound_xml (remove "sound" loaded).1 []
        ≡ (returned tt, ((remove "sound" loaded).1, [])))
unfolding get_child lookup
commit-remove_example = commit-remove files sound_xml "sound" loaded sound_on [] refl refl

abbrev no_numbers : Numbers
no_numbers = record { Number = String; parse = λ t. some t; str = λ t. t; eq = str_eq }

dict_of_loaded : as_dict no_numbers no_numbers loaded ≡ returned ((some "sound", boolean true) ∷ [])
unfolding add_children get_boolean lookup
dict_of_loaded = refl
