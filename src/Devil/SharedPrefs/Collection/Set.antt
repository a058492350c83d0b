-- ===== src/Devil/SharedPrefs/Collection/Set.antt =====
-- `_SetPrefValue` against the reads that follow it.
use car_multimedia_android_a.Base.{
  ◌≡◌, refl, sym, ap, subst, ◌∙◌, true, false, none, some, [], ◌∷◌, String, str_eq, arith, eq_refl,
  eq_iff, Option-cases, Bool-cases, inl, inr,
}
use car_multimedia_android_a.Base.Dict.{lookup}
use car_multimedia_android_a.Devil.SharedPrefs.Elements.{
  Element, key_error, raised, returned, PrefClass,
}
use car_multimedia_android_a.Devil.SharedPrefs.Collection.{
  SharedPrefs, is_named, get_child, read, get_pref, new_element, append_pref, overwrite_pref,
  set_pref_value,
}
use car_multimedia_android_a.Devil.SharedPrefs.Collection.Children.{
  get_child-append, is_named-get_child, is_named_other, get_child-put_child,
  get_child-put_child_other,
}
use car_multimedia_android_a.Devil.SharedPrefs.Collection.Values.{IsSettable}

-- A property that is missing, or is there with a value that the class can read.
pub data IsWritable (C : PrefClass) (key : String) (s : SharedPrefs) : Type 0 where
  missing : get_child key s.xml ≡ none → IsWritable C key s
  present :
      (e : Element) (old_value : C.Value)
      → get_child key s.xml ≡ some e
      → read C e ≡ returned old_value
      → IsWritable C key s

module _ (C : PrefClass) (key : String) (value : C.Value) (s : SharedPrefs) where
  pub set_pref_value-missing :
      get_child key s.xml ≡ none
      → set_pref_value C key value s ≡ (returned tt, append_pref C key value s)
  unfolding set_pref_value
  set_pref_value-missing p = ground arith

  pub set_pref_value-present :
      (e : Element) (old_value : C.Value)
      → get_child key s.xml ≡ some e
      → read C e ≡ returned old_value
      → set_pref_value C key value s ≡ (returned tt, overwrite_pref C key value old_value e s)
  unfolding set_pref_value
  set_pref_value-present e old_value p q = ground arith

  -- A property whose value cannot be read, with a KeyError as BooleanPref raises it, is not repaired by setting it: the
  -- call returns, a second element of the same name is appended, and the property is still read
  -- from the first, with the same KeyError.
  pub get_pref-set_pref_value_unreadable :
      (e : Element)
      → get_child key s.xml ≡ some e
      → read C e ≡ raised key_error
      → (set_pref_value C key value s ≡ (returned tt, append_pref C key value s))
        × (get_pref C key (append_pref C key value s) ≡ raised key_error)
  unfolding set_pref_value append_pref get_pref
  get_pref-set_pref_value_unreadable e p q = (
    ground arith,
    ground (
      arith,
      get_child-append key s.xml (C.set value (new_element C key) ∷ []),
      get_child-append key s.xml (new_element C key ∷ []),
    ),
  )

  module _ (L : IsSettable C value) where
    is_named_of_set : (e : Element) → is_named key e ≡ true → is_named key (C.set value e) ≡ true
    is_named_of_set e p =
        ap (λ n. elim n [ none ↦ false | some n ↦ str_eq n key ]) (L.name-set e) ∙ p

    is_named-new_element : is_named key (new_element C key) ≡ true
    unfolding lookup
    is_named-new_element = eq_refl key

    get_pref_of_child :
        (t : SharedPrefs) (e : Element) (u : C.Value)
        → get_child key t.xml ≡ some e
        → read C e ≡ returned u
        → get_pref C key t ≡ returned u
    unfolding get_pref
    get_pref_of_child t e u p q = ground arith

    read-set : (e : Element) → e.tag ≡ C.tag_name → read C (C.set value e) ≡ returned value
    unfolding read
    read-set e p = ground (arith, L.get-set e, L.tag-set e, eq_refl C.tag_name)

    tag_of_read :
        (e : Element) (u : C.Value) → read C e ≡ returned u → str_eq e.tag C.tag_name ≡ true
    unfolding read
    tag_of_read e u p = ground arith

    get_child-append_pref :
        get_child key s.xml ≡ none
        → get_child key (append_pref C key value s).xml ≡ some (C.set value (new_element C key))
    unfolding append_pref get_child
    get_child-append_pref p = ground (
      arith,
      L.not_none,
      get_child-append key s.xml (C.set value (new_element C key) ∷ []),
      is_named_of_set (new_element C key),
      is_named-new_element,
    )

    get_pref-append_pref :
        get_child key s.xml ≡ none → get_pref C key (append_pref C key value s) ≡ returned value
    get_pref-append_pref p =
        get_pref_of_child (append_pref C key value s) (C.set value (new_element C key)) value
          (get_child-append_pref p) (read-set (new_element C key) refl)

    get_pref-overwrite_pref :
        (e : Element) (u : C.Value)
        → get_child key s.xml ≡ some e
        → read C e ≡ returned u
        → get_pref C key (overwrite_pref C key value u e s) ≡ returned value
    unfolding overwrite_pref get_pref
    get_pref-overwrite_pref e u p q = elim (Bool-cases (C.eq u value)) [
      | inl same ↦ ground (arith, L.eq_sound u)
      | inr differ ↦ ground (
        arith,
        get_child-put_child key (C.set value e) e s.xml,
        is_named_of_set e,
        is_named-get_child key s.xml e,
        read-set e,
        tag_of_read e u,
        eq_iff e.tag C.tag_name,
      )
    ]

    -- For a value that is not None, that the class reads back from an element as it has set it
    -- there, and whose setting keeps the element's tag and name: setting a property that is
    -- missing, or that the class can read, succeeds, and the property then reads as the value.
    pub get_pref-set_pref_value :
        IsWritable C key s
        → ((set_pref_value C key value s).0 ≡ returned tt)
          × (get_pref C key (set_pref_value C key value s).1 ≡ returned value)
    get_pref-set_pref_value (missing p) = (
      ap (λ r. r.0) (set_pref_value-missing p),
      subst (λ r. get_pref C key r.1 ≡ returned value) (sym (set_pref_value-missing p))
          (get_pref-append_pref p),
    )
    get_pref-set_pref_value (present e u p q) = (
      ap (λ r. r.0) (set_pref_value-present e u p q),
      subst (λ r. get_pref C key r.1 ≡ returned value) (sym (set_pref_value-present e u p q))
          (get_pref-overwrite_pref e u p q),
    )

    is_named_other_of_set :
        (j : String) (e : Element)
        → str_eq key j ≡ false
        → is_named key e ≡ true
        → is_named j (C.set value e) ≡ false
    is_named_other_of_set j e q p = is_named_other key j (C.set value e) (is_named_of_set e p) q

    get_child-append_pref_other :
        (j : String)
        → str_eq key j ≡ false
        → get_child j (append_pref C key value s).xml ≡ get_child j s.xml
    unfolding append_pref get_child
    get_child-append_pref_other j q = elim (Option-cases (get_child j s.xml)) [
      | inl n ↦ ground (
        arith,
        L.not_none,
        is_named_other_of_set j (new_element C key),
        is_named-new_element,
        get_child-append j s.xml (C.set value (new_element C key) ∷ []),
      )
      | inr (e, h) ↦
          ground
            (arith, L.not_none, get_child-append j s.xml (C.set value (new_element C key) ∷ []))
    ]

    get_child-overwrite_pref_other :
        (j : String) (u : C.Value) (e : Element)
        → str_eq key j ≡ false
        → get_child key s.xml ≡ some e
        → get_child j (overwrite_pref C key value u e s).xml ≡ get_child j s.xml
    unfolding overwrite_pref
    get_child-overwrite_pref_other j u e q p = ground (
      arith,
      get_child-put_child_other key j (C.set value e) s.xml,
      is_named_of_set e,
      is_named-get_child key s.xml e,
    )

    -- For a value that is not None, that the class reads back from an element as it has set it
    -- there, and whose setting keeps the element's tag and name: setting a property that is
    -- missing, or that the class can read, leaves the elements of the other keys as they are.
    pub get_child-set_pref_value_other :
        IsWritable C key s
        → (j : String) → str_eq key j ≡ false
        → get_child j (set_pref_value C key value s).1.xml ≡ get_child j s.xml
    get_child-set_pref_value_other (missing p) j q =
        subst (λ r. get_child j r.1.xml ≡ get_child j s.xml) (sym (set_pref_value-missing p))
          (get_child-append_pref_other j q)
    get_child-set_pref_value_other (present e u p h) j q =
        subst (λ r. get_child j r.1.xml ≡ get_child j s.xml) (sym (set_pref_value-present e u p h))
          (get_child-overwrite_pref_other j u e q p)
