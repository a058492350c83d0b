-- ===== src/Devil/SharedPrefs/Collection/Children.antt =====
-- What the search for a child finds in a document that was changed.
use car_multimedia_android_a.Base.{
  ◌≡◌, refl, true, false, none, some, List, [], ◌∷◌, ◌++◌, String, str_eq, arith, eq_iff,
  Option-cases, inl, inr,
}
use car_multimedia_android_a.Base.Dict.{lookup}
use car_multimedia_android_a.Devil.SharedPrefs.Elements.{Element}
use car_multimedia_android_a.Devil.SharedPrefs.Collection.{
  is_named, get_child, put_child, drop_child,
}

pub get_child-append :
    (key : String) (xs ys : List Element)
    → get_child key (xs ++ ys)
      ≡ elim (get_child key xs) [ none ↦ get_child key ys | some e ↦ some e ]
unfolding get_child
get_child-append key [] ys = refl
get_child-append key (e ∷ xs) ys = ground (arith, get_child-append key xs ys)

-- The child that is found has the name that was looked for.
pub is_named-get_child :
    (key : String) (es : List Element) (e : Element)
    → get_child key es ≡ some e
    → is_named key e ≡ true
unfolding get_child
is_named-get_child key [] e p = absurd (cc)
is_named-get_child key (x ∷ es) e p = ground (arith, is_named-get_child key es e)

-- An element has one name.
pub is_named_other :
    (key j : String) (e : Element)
    → is_named key e ≡ true
    → str_eq key j ≡ false
    → is_named j e ≡ false
is_named_other key j e p q = elim (Option-cases (lookup "name" e.attrib)) [
  | inl n ↦ ground arith
  | inr (n, h) ↦ ground (arith, eq_iff n key, eq_iff n j, eq_iff key j)
]

pub get_child-put_child :
    (key : String) (new e : Element) (es : List Element)
    → is_named key new ≡ true
    → get_child key es ≡ some e
    → get_child key (put_child key new es) ≡ some new
unfolding get_child put_child
get_child-put_child key new e [] n p = absurd (cc)
get_child-put_child key new e (x ∷ es) n p = ground (arith, get_child-put_child key new e es)

pub get_child-put_child_other :
    (key j : String) (new : Element) (es : List Element)
    → is_named key new ≡ true
    → str_eq key j ≡ false
    → get_child j (put_child key new es) ≡ get_child j es
unfolding get_child put_child
get_child-put_child_other key j new [] n q = refl
get_child-put_child_other key j new (x ∷ es) n q = ground (
  arith,
  is_named_other key j x,
  is_named_other key j new,
  get_child-put_child_other key j new es,
)

pub get_child-drop_child_other :
    (key j : String) (es : List Element)
    → str_eq key j ≡ false
    → get_child j (drop_child key es) ≡ get_child j es
unfolding get_child drop_child
get_child-drop_child_other key j [] q = refl
get_child-drop_child_other key j (x ∷ es) q =
    ground (arith, is_named_other key j x, get_child-drop_child_other key j es)
