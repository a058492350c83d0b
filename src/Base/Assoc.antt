-- ===== src/Base/Assoc.antt =====
-- A Python dict whose keys are compared by a test, in insertion order.
use car_multimedia_android_a.Base.Tests.{if◌then◌else◌, Bool-cases}
use mathlib.Core.Path.{◌≡◌, refl, subst, sym}
use mathlib.Core.Logic.{◌↔◌, inl, inr}
use mathlib.Core.Bool.{Bool, true, false}
use mathlib.Core.List.{List, [], ◌∷◌}
use mathlib.Core.Option.{Option, none, some}
use native.Mathlib.Omega.{arith}

module _ {K V : Type 0} (eq : K → K → Bool) where
  -- `d.get(k)`
  unfoldable pub get : K → List (K × V) → Option V
  get k [] = none
  get k ((j, v) ∷ d) = if eq j k then some v else get k d

  -- `d[k] = v`
  unfoldable pub put : K → V → List (K × V) → List (K × V)
  put k v [] = (k, v) ∷ []
  put k v ((j, w) ∷ d) = if eq j k then (j, v) ∷ d else (j, w) ∷ put k v d

  -- `del d[k]` of a key that is there
  unfoldable pub del : K → List (K × V) → List (K × V)
  del k [] = []
  del k ((j, w) ∷ d) = let rest = del k d in if eq j k then rest else (j, w) ∷ rest

  -- No key stands twice.
  abbrev pub IsDistinct : List (K × V) → Type 0
  IsDistinct [] = Unit
  IsDistinct ((k, v) ∷ d) = (get k d ≡ none) × IsDistinct d

  put_here :
      (k : K) (v : V) (j : K) (w : V) (d : List (K × V))
      → eq j k ≡ true
      → put k v ((j, w) ∷ d) ≡ (j, v) ∷ d
  unfolding put
  put_here k v j w d p = ground arith

  put_later :
      (k : K) (v : V) (j : K) (w : V) (d : List (K × V))
      → eq j k ≡ false
      → put k v ((j, w) ∷ d) ≡ (j, w) ∷ put k v d
  unfolding put
  put_later k v j w d p = ground arith

  del_here : (k j : K) (w : V) (d : List (K × V)) → eq j k ≡ true → del k ((j, w) ∷ d) ≡ del k d
  unfolding del
  del_here k j w d p = ground arith

  del_later :
      (k j : K) (w : V) (d : List (K × V)) → eq j k ≡ false → del k ((j, w) ∷ d) ≡ (j, w) ∷ del k d
  unfolding del
  del_later k j w d p = ground arith

  module _ (eq_iff : (a b : K) → (eq a b ≡ true) ↔ (a ≡ b)) where
    pub get-put :
        (k j : K) (v : V) (d : List (K × V))
        → get j (put k v d) ≡ (if eq k j then some v else get j d)
    unfolding get put
    get-put k j v [] = refl
    get-put k j v ((i, w) ∷ d) = ground (arith, eq_iff k j, eq_iff i k, eq_iff i j, get-put k j v d)

    pub get-del :
        (k j : K) (d : List (K × V)) → get j (del k d) ≡ (if eq k j then none else get j d)
    unfolding get del
    get-del k j [] = ground arith
    get-del k j ((i, w) ∷ d) = ground (arith, eq_iff k j, eq_iff i k, eq_iff i j, get-del k j d)

    get-put_fresh :
        (k j : K) (v : V) (d : List (K × V))
        → eq j k ≡ false
        → get j d ≡ none
        → get j (put k v d) ≡ none
    get-put_fresh k j v d p q = ground (arith, get-put k j v d, eq_iff k j, eq_iff j k)

    pub put-IsDistinct : (k : K) (v : V) (d : List (K × V)) → IsDistinct d → IsDistinct (put k v d)
    unfolding put get
    put-IsDistinct k v [] h = (refl, tt)
    put-IsDistinct k v ((j, w) ∷ d) (fresh, h) = elim (Bool-cases (eq j k)) [
      | inl p ↦ subst IsDistinct (sym (put_here k v j w d p)) (fresh, h)
      | inr p ↦
          subst IsDistinct (sym (put_later k v j w d p))
            (get-put_fresh k j v d p fresh, put-IsDistinct k v d h)
    ]

    get-del_fresh : (k j : K) (d : List (K × V)) → get j d ≡ none → get j (del k d) ≡ none
    get-del_fresh k j d q = ground (arith, get-del k j d)

    pub del-IsDistinct : (k : K) (d : List (K × V)) → IsDistinct d → IsDistinct (del k d)
    unfolding del
    del-IsDistinct k [] h = tt
    del-IsDistinct k ((j, w) ∷ d) (fresh, h) = elim (Bool-cases (eq j k)) [
      | inl p ↦ subst IsDistinct (sym (del_here k j w d p)) (del-IsDistinct k d h)
      | inr p ↦
          subst IsDistinct (sym (del_later k j w d p))
            (get-del_fresh k j d fresh, del-IsDistinct k d h)
    ]
