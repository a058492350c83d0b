-- ===== src/Devil/SharedPrefs/Collection.antt =====
-- `SharedPrefs` as a collection. The underlying document is the list of the children of its root;
-- `_xml` being None is the empty list, since no operation tells the two apart.
pub mod Children
pub mod Values
pub mod Set
pub mod Changed
pub mod AsDict
use car_multimedia_android_a.Base.{
  ◌≡◌, Bool, true, false, not, Option, none, some, List, [], ◌∷◌, ◌++◌, ℕ, length, is_empty,
  is_some, String, str_eq, if◌then◌else◌,
}
use car_multimedia_android_a.Base.Dict.{Dict, lookup, insert}
use car_multimedia_android_a.Devil.SharedPrefs.Elements.{
  Element, Item, Error, key_error, type_error, Result, raised, returned, PrefClass, Numbers,
  get_boolean, get_number, get_string, get_string_set,
}

pub record SharedPrefs : Type 0 where
  pub package_name : String
  pub filename : String
  pub xml : List Element
  pub changed : Bool

-- `SharedPrefs.__init__`
abbrev pub new_shared_prefs : String → String → SharedPrefs
new_shared_prefs package_name filename = record {
  package_name = package_name;
  filename = filename;
  xml = [];
  changed = false;
}

-- `child.get('name') == key`
abbrev pub is_named : String → Element → Bool
is_named key e = elim (lookup "name" e.attrib) [ none ↦ false | some n ↦ str_eq n key ]

-- `_GetChild`; `none` is its KeyError.
unfoldable pub get_child : String → List Element → Option Element
get_child key [] = none
get_child key (e ∷ es) = if is_named key e then some e else get_child key es

-- What changing that child in place makes of the document.
unfoldable pub put_child : String → Element → List Element → List Element
put_child key new [] = []
put_child key new (e ∷ es) = if is_named key e then new ∷ es else e ∷ put_child key new es

-- What `xml.remove` makes of the document, on the child that _GetChild has found.
unfoldable pub drop_child : String → List Element → List Element
drop_child key [] = []
drop_child key (e ∷ es) = if is_named key e then es else e ∷ drop_child key es

-- `__len__`
abbrev pub len : SharedPrefs → ℕ
len s = length s.xml

-- `Clear`
unfoldable pub clear : SharedPrefs → SharedPrefs
clear s = if is_empty s.xml then s else record s { xml = []; changed = true }

-- `PropertyType`
unfoldable pub property_type : String → SharedPrefs → Result String
property_type key s = elim (get_child key s.xml) [
  | none ↦ raised key_error
  | some e ↦ returned e.tag
]

-- `HasProperty`
unfoldable pub has_property : String → SharedPrefs → Bool
has_property key s = is_some (get_child key s.xml)

-- `Remove`
unfoldable pub remove : String → SharedPrefs → Result (Unit {0}) × SharedPrefs
unfolding drop_child
remove key s = elim (get_child key s.xml) [
  | none ↦ (raised key_error, s)
  | some _ ↦ (returned tt, record s { xml = drop_child key s.xml })
]

module _ (C : PrefClass) where
  -- `BasePref.__init__` and `get`
  unfoldable pub read : Element → Result C.Value
  read e = if str_eq e.tag C.tag_name then C.get e else raised type_error

  -- `GetBoolean`, `GetInt` and so on: `pref_cls(self._GetChild(key)).get()`
  unfoldable pub get_pref : String → SharedPrefs → Result C.Value
  unfolding read
  get_pref key s = elim (get_child key s.xml) [ none ↦ raised key_error | some e ↦ read e ]

  -- `ElementTree.SubElement(self.xml, pref_cls.tag_name, {'name': key})`
  abbrev pub new_element : String → Element
  new_element key = record {
    tag = C.tag_name;
    attrib = ("name", key) ∷ [];
    text = none;
    items = [];
  }

  -- The `except KeyError` branch and what follows it; `old_value` is None.
  unfoldable pub append_pref : String → C.Value → SharedPrefs → SharedPrefs
  append_pref key value s =
      if C.is_none value
      then record s { xml = s.xml ++ (new_element key ∷ []) }
      else record s { xml = s.xml ++ (C.set value (new_element key) ∷ []); changed = true }

  -- The `try` branch and what follows it: the child is there, and was read.
  unfoldable pub overwrite_pref : String → C.Value → C.Value → Element → SharedPrefs → SharedPrefs
  overwrite_pref key value old_value e s =
      if C.eq old_value value
      then s
      else record s { xml = put_child key (C.set value e) s.xml; changed = true }

  -- `_SetPrefValue`. A KeyError of `get` is caught like that of _GetChild.
  unfoldable pub set_pref_value : String → C.Value → SharedPrefs → Result (Unit {0}) × SharedPrefs
  unfolding read append_pref overwrite_pref
  set_pref_value key value s = elim (get_child key s.xml) [
    | none ↦ (returned tt, append_pref key value s)
    | some e ↦ elim (read e) [
      | returned old_value ↦ (returned tt, overwrite_pref key value old_value e s)
      | raised error ↦ elim error [
        | Error.key_error ↦ (returned tt, append_pref key value s)
        | other ↦ (raised other, s)
      ]
    ]
  ]
