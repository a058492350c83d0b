-- ===== src/Dependency/LocalPaths/Laws.antt =====
-- Which local path is found, and that an update keeps the order of precedence.
use car_multimedia_android_a.Base.{
  ℕ, ◌≤◌, ◌≡◌, refl, ap, sym, subst, ◌∙◌, Bool, true, false, not, ◌&&◌, ◌||◌, Option, none, some,
  List, [], ◌∷◌, ◌++◌, String, contains, eq_iff, arith, any-append, Option-cases, inl, inr,
}
use car_multimedia_android_a.Dependency.LocalPaths.{
  LocalPathInfo, is_path_in_local_paths, existing, latest, pick, get_local_path, new_paths, extend,
  update_groups, update,
}

-- The first choice, or the second where there is none.
abbrev pub or_else {ℓ} : {A : Type ℓ} → Option A → Option A → Option A
or_else none b = b
or_else (some a) b = some a

pub or_else_assoc {ℓ} :
    {A : Type ℓ} (a b c : Option A) → or_else (or_else a b) c ≡ or_else a (or_else b c)
or_else_assoc none b c = refl
or_else_assoc (some a) b c = refl

pub or_else-none {ℓ} : {A : Type ℓ} (a : Option A) → or_else a none ≡ a
or_else-none none = refl
or_else-none (some a) = refl

contains-new_paths :
    (groups : LocalPathInfo) (ps : List String) (p : String)
    → contains p (new_paths groups ps) ≡ (contains p ps && not (is_path_in_local_paths groups p))
unfolding new_paths
contains-new_paths groups [] p = refl
contains-new_paths groups (q ∷ ps) p = ground (arith, eq_iff q p, contains-new_paths groups ps p)

is_path_in-extend :
    (groups : LocalPathInfo) (fresh : List String) (p : String)
    → is_path_in_local_paths (extend groups fresh) p
      ≡ (is_path_in_local_paths groups p || contains p fresh)
unfolding extend is_path_in_local_paths
is_path_in-extend groups [] p = ground arith
is_path_in-extend groups (q ∷ ps) p = any-append (contains p) groups ((q ∷ ps) ∷ []) ∙ ground arith

is_path_in-update_groups :
    (groups others : LocalPathInfo) (p : String)
    → is_path_in_local_paths (update_groups groups others) p
      ≡ (is_path_in_local_paths groups p || is_path_in_local_paths others p)
unfolding update_groups is_path_in_local_paths
is_path_in-update_groups groups [] p = ground arith
is_path_in-update_groups groups (g ∷ others) p = ground (
  arith,
  is_path_in-update_groups (extend groups (new_paths groups g)) others p,
  is_path_in-extend groups (new_paths groups g) p,
  contains-new_paths groups g p,
)

module _ (exists : String → Bool) (mtime : String → ℕ) where
  abbrev get : LocalPathInfo → Option String
  get = get_local_path exists mtime

  abbrev found : List String → Option String
  found g = pick exists mtime (existing exists mtime g)

  get-cons : (g : List String) (gs : LocalPathInfo) → get (g ∷ gs) ≡ or_else (found g) (get gs)
  unfolding get_local_path
  get-cons g gs = ground arith

  get-append : (xs ys : LocalPathInfo) → get (xs ++ ys) ≡ or_else (get xs) (get ys)
  get-append [] ys = unfold get_local_path in refl
  get-append (g ∷ xs) ys =
      get-cons g (xs ++ ys)
      ∙ ap (or_else (found g)) (get-append xs ys)
      ∙ sym (or_else_assoc (found g) (get xs) (get ys))
      ∙ ap (λ a. or_else a (get ys)) (sym (get-cons g xs))

  found-none :
      (g : List String) (p : String) → found g ≡ none → contains p g ≡ true → exists p ≡ false
  unfolding pick existing
  found-none [] p e c = cc
  found-none (q ∷ g) p e c = ground (arith, eq_iff q p, found-none g p)

  get-none :
      (groups : LocalPathInfo) (p : String)
      → get groups ≡ none
      → is_path_in_local_paths groups p ≡ true
      → exists p ≡ false
  unfolding is_path_in_local_paths
  get-none [] p e c = cc
  get-none (g ∷ groups) p e c = ground (arith, get-cons g groups, found-none g p, get-none groups p)

  existing-new_paths :
      (groups : LocalPathInfo) (g : List String)
      → get groups ≡ none
      → existing exists mtime (new_paths groups g) ≡ existing exists mtime g
  unfolding existing new_paths
  existing-new_paths groups [] e = refl
  existing-new_paths groups (p ∷ g) e =
      ground (arith, get-none groups p e, existing-new_paths groups g e)

  get-extend :
      (groups : LocalPathInfo) (fresh : List String)
      → get (extend groups fresh) ≡ or_else (get groups) (found fresh)
  unfolding extend pick existing get_local_path
  get-extend groups [] = sym (or_else-none (get groups))
  get-extend groups (p ∷ ps) =
      get-append groups ((p ∷ ps) ∷ [])
      ∙ ap (or_else (get groups)) (get-cons (p ∷ ps) [] ∙ or_else-none (found (p ∷ ps)))

  get-step :
      (groups : LocalPathInfo) (g : List String)
      → get (extend groups (new_paths groups g)) ≡ or_else (get groups) (found g)
  get-step groups g = get-extend groups (new_paths groups g) ∙ elim (Option-cases (get groups)) [
    | inl e ↦ ap (or_else (get groups)) (ap (pick exists mtime) (existing-new_paths groups g e))
    | inr (p, e) ↦ rw e
  ]

  get-update_groups :
      (groups others : LocalPathInfo)
      → get (update_groups groups others) ≡ or_else (get groups) (get others)
  unfolding update_groups get_local_path
  get-update_groups groups [] = sym (or_else-none (get groups))
  get-update_groups groups (g ∷ others) =
      get-update_groups (extend groups (new_paths groups g)) others
      ∙ ap (λ a. or_else a (get others)) (get-step groups g)
      ∙ or_else_assoc (get groups) (found g) (get others)
      ∙ ap (or_else (get groups)) (sym (get-cons g others))

  -- After an update a local path is looked for among the old groups first, and among the new
  -- information only where the old groups have no file; and exactly the paths of either are
  -- listed.
  pub get_local_path-update :
      (groups : LocalPathInfo) (others : LocalPathInfo)
      → (get_local_path exists mtime (update groups (some others))
          ≡ or_else (get_local_path exists mtime groups) (get_local_path exists mtime others))
        × ((p : String)
            → is_path_in_local_paths (update groups (some others)) p
              ≡ (is_path_in_local_paths groups p || is_path_in_local_paths others p))
  unfolding update
  get_local_path-update groups others =
      (get-update_groups groups others, is_path_in-update_groups groups others)

  -- The path that the order of precedence asks for: in the first group that has a file, a file
  -- that was modified no earlier than the others of its group.
  pub data Chosen : LocalPathInfo → Option String → Type 0 where
    nowhere : Chosen [] none
    later :
        {g : List String} {groups : LocalPathInfo} {r : Option String}
        → ((p : String) → contains p g ≡ true → exists p ≡ false)
        → Chosen groups r
        → Chosen (g ∷ groups) r
    here :
        {g : List String} {groups : LocalPathInfo} {p : String}
        → contains p g ≡ true
        → exists p ≡ true
        → ((q : String) → contains q g ≡ true → exists q ≡ true → mtime q ≤ mtime p)
        → Chosen (g ∷ groups) (some p)

  contains-existing :
      (g : List String) (p : String)
      → contains p (existing exists mtime g) ≡ (contains p g && exists p)
  unfolding existing
  contains-existing [] p = refl
  contains-existing (q ∷ g) p = ground (arith, eq_iff q p, contains-existing g p)

  -- The running best is a member, and no earlier than any other.
  latest-contains :
      (best : String) (ps : List String) → contains (latest exists mtime best ps) (best ∷ ps) ≡ true
  unfolding latest
  latest-contains best [] = ground (arith, eq_iff best best)
  latest-contains best (p ∷ ps) = ground (arith, latest-contains p ps, latest-contains best ps)

  latest-max :
      (best : String) (ps : List String) (q : String)
      → contains q (best ∷ ps) ≡ true
      → mtime q ≤ mtime (latest exists mtime best ps)
  unfolding latest
  latest-max best [] q c = ground (arith, eq_iff best q)
  latest-max best (p ∷ ps) q c = ground (
    arith,
    eq_iff best q,
    eq_iff p q,
    eq_iff p p,
    eq_iff best best,
    latest-max p ps q,
    latest-max p ps p,
    latest-max best ps q,
    latest-max best ps best,
  )

  pick-Chosen :
      (g : List String) (groups : LocalPathInfo)
      → Chosen groups (get groups)
      → (ps : List String) → existing exists mtime g ≡ ps
      → Chosen (g ∷ groups) (or_else (pick exists mtime ps) (get groups))
  unfolding pick
  pick-Chosen g groups rest [] e = later (λ p c. ground (arith, contains-existing g p)) rest
  pick-Chosen g groups rest (p ∷ ps) e =
      here (member.0) (member.1)
        (λ q c x. latest-max p ps q (ap (contains q) (sym e) ∙ contains-existing g q ∙ rw (c, x)))
    where
      member :
          (contains (latest exists mtime p ps) g ≡ true)
          × (exists (latest exists mtime p ps) ≡ true)
      member =
          let best = latest exists mtime p ps in
          ground
            (arith, sym (contains-existing g best) ∙ ap (contains best) e ∙ latest-contains p ps)

  -- GetLocalPath finds the path that the order of precedence asks for: in the first group that
  -- has a file, the file that was modified last; and None if no group has a file.
  pub get_local_path-Chosen :
      (groups : LocalPathInfo) → Chosen groups (get_local_path exists mtime groups)
  get_local_path-Chosen [] = unfold get_local_path in nowhere
  get_local_path-Chosen (g ∷ groups) =
      subst (Chosen (g ∷ groups)) (sym (get-cons g groups))
        (pick-Chosen g groups (get_local_path-Chosen groups) (existing exists mtime g) refl)
