-- ===== src/Devil/Flags/Sets.antt =====
-- Python's `set` of flags, as FlagChanger uses it: a list in which membership alone matters.
use car_multimedia_android_a.Base.{
  ◌≡◌, refl, subst, ◌∙◌, All, Bool, true, false, not, ◌&&◌, ◌||◌, List, [], ◌∷◌, arith, Bool-cases,
  inl, inr, if◌then◌else◌, ◌==◌, ◌↔◌,
}
use car_multimedia_android_a.Devil.Flags.Text.{Flag}

unfoldable pub flag_eq : Flag → Flag → Bool
flag_eq [] [] = true
flag_eq [] (d ∷ g) = false
flag_eq (c ∷ f) [] = false
flag_eq (c ∷ f) (d ∷ g) = c == d && flag_eq f g

pub flag_eq_iff : (f g : Flag) → (flag_eq f g ≡ true) ↔ (f ≡ g)
unfolding flag_eq
flag_eq_iff [] [] = (λ _. refl, λ _. refl)
flag_eq_iff [] (d ∷ g) = (λ e. cc, λ e. cc)
flag_eq_iff (c ∷ f) [] = (λ e. cc, λ e. cc)
flag_eq_iff (c ∷ f) (d ∷ g) =
    (λ e. ground (arith, (flag_eq_iff f g).0), λ e. ground (arith, (flag_eq_iff f g).1))

-- `f in s`
unfoldable pub has : Flag → List Flag → Bool
has f [] = false
has f (g ∷ s) = flag_eq g f || has f s

-- `s.add(f)`
abbrev pub add_flag : Flag → List Flag → List Flag
add_flag f s = if has f s then s else f ∷ s

-- `s.update(add)`
unfoldable pub update : List Flag → List Flag → List Flag
update s [] = s
update s (f ∷ add) = update (add_flag f s) add

-- `set(flags)`
abbrev pub set_of : List Flag → List Flag
set_of flags = update [] flags

-- `s.difference_update(remove)`
unfoldable pub difference_update : List Flag → List Flag → List Flag
difference_update [] remove = []
difference_update (f ∷ s) remove =
    let rest = difference_update s remove in if has f remove then rest else f ∷ rest

has-add_flag : (f g : Flag) (s : List Flag) → has f (add_flag g s) ≡ (has f s || flag_eq g f)
unfolding has
has-add_flag f g s = ground (arith, flag_eq_iff g f)

pub has-update : (f : Flag) (s add : List Flag) → has f (update s add) ≡ (has f s || has f add)
unfolding has update
has-update f s [] = ground arith
has-update f s (g ∷ add) = ground (arith, has-add_flag f g s, has-update f (add_flag g s) add)

pub has-difference_update :
    (f : Flag) (s remove : List Flag)
    → has f (difference_update s remove) ≡ (has f s && not (has f remove))
unfolding has difference_update
has-difference_update f [] remove = refl
has-difference_update f (g ∷ s) remove =
    ground (arith, flag_eq_iff g f, has-difference_update f s remove)

-- The same members.
abbrev pub SameFlags : List Flag → List Flag → Type 0
SameFlags s t = (f : Flag) → has f s ≡ has f t

-- A property of all members depends on membership alone.
pub All-has {ℓ} :
    (P : Flag → Type ℓ) (s : List Flag) → ((f : Flag) → has f s ≡ true → P f) → All P s
unfolding has
All-has P [] h = tt
All-has P (g ∷ s) h =
    (h g (rw ((flag_eq_iff g g).1 refl)), All-has P s (λ f m. h f (rw m (or-true (flag_eq g f)))))
  where
    or-true : (b : Bool) → (b || true) ≡ true
    or-true b = ground arith

pub has-All {ℓ} : (P : Flag → Type ℓ) (f : Flag) (s : List Flag) → All P s → has f s ≡ true → P f
unfolding has
has-All P f [] a h = absurd (cc)
has-All P f (g ∷ s) a h = elim (Bool-cases (flag_eq g f)) [
  | inl e ↦ subst P ((flag_eq_iff g f).0 e) a.0
  | inr e ↦ has-All P f s a.1 (rw e at h)
]

pub SameFlags-All {ℓ} : (P : Flag → Type ℓ) (s t : List Flag) → SameFlags s t → All P s → All P t
SameFlags-All P s t e a = All-has P t (λ f h. has-All P f s a (e f ∙ h))

pub SameFlags-set_of : (s : List Flag) → SameFlags (set_of s) s
unfolding has
SameFlags-set_of s f = has-update f [] s
