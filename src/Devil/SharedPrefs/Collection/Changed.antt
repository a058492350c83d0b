-- ===== src/Devil/SharedPrefs/Collection/Changed.antt =====
-- What the flag `_changed` says of the document.
use car_multimedia_android_a.Base.{◌≡◌, false, some, String, str_eq, arith}
use car_multimedia_android_a.Devil.SharedPrefs.Elements.{Element, type_error, raised, PrefClass}
use car_multimedia_android_a.Devil.SharedPrefs.Collection.{
  SharedPrefs, get_child, read, set_pref_value, clear,
}

-- One call that may change the collection, but for Remove; what is set is not None.
pub data Step (s : SharedPrefs) : SharedPrefs → Type 1 where
  sets :
      (C : PrefClass) (key : String) (value : C.Value)
      → C.is_none value ≡ false
      → Step s (set_pref_value C key value s).1
  clears : Step s (clear s)

-- Any number of such calls.
pub data Steps (s : SharedPrefs) : SharedPrefs → Type 1 where
  done : Steps s s
  then_step : {t u : SharedPrefs} → Steps s t → Step t u → Steps s u

-- A property of another type cannot be set: the call raises a TypeError and changes nothing.
pub set_pref_value-type_error :
    (C : PrefClass) (key : String) (value : C.Value) (s : SharedPrefs) (e : Element)
    → get_child key s.xml ≡ some e
    → str_eq e.tag C.tag_name ≡ false
    → set_pref_value C key value s ≡ (raised type_error, s)
unfolding set_pref_value read
set_pref_value-type_error C key value s e p q = ground arith
