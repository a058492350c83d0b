-- ===== src/Dependency/Manager/Prefetch.antt =====
-- How PrefetchPaths sorts dependencies and how often it asks cloud storage.
use car_multimedia_android_a.Base.{
  ℕ, zero, suc, ◌<◌, ◌≡◌, ◌≢◌, refl, sym, subst, ◌∙◌, Bool, true, false, Option, none, List, [],
  ◌∷◌, ◌++◌, append_assoc, append-nil, String, is_some, is_empty, if◌then◌else◌, arith, ◌⊎◌, inl,
  inr,
}
use car_multimedia_android_a.Base.Dict.{keys}
use car_multimedia_android_a.Dependency.Remote.{
  Host, Error, value_error, no_path_found, cloud_storage_error, file_not_found, archive_error,
  os_error, Result, ok, err,
}
use car_multimedia_android_a.Dependency.Info.{DependencyInfo, get_remote_path}
use car_multimedia_android_a.Dependency.Manager.{
  LookupDict, get_dependency_info, fetch_with_retries, Prefetched, skipped, found, missing,
  prefetch_one, Lists, sort_in, prefetch_loop, prefetch_paths,
}

Result-cases {ℓ} :
    {A : Type ℓ} (r : Result A) → ((a : A) × (r ≡ ok a)) ⊎ ((e : Error) × (r ≡ err e))
Result-cases (ok a) = inl (a, refl)
Result-cases (err e) = inr (e, refl)

is_empty-nil {ℓ} : {A : Type ℓ} (xs : List A) → is_empty xs ≡ true → xs ≡ []
is_empty-nil [] h = refl
is_empty-nil (x ∷ xs) h = cc

module _ (H : Host) (d : LookupDict) (platform : String) where
  abbrev pub is_configured : String → Bool
  is_configured k = is_some (get_dependency_info d k platform)

  -- The dependencies for which an info is looked up, and the others.
  abbrev pub configured : List String → List String
  configured [] = []
  configured (k ∷ ks) = if is_configured k then k ∷ configured ks else configured ks

  abbrev pub unconfigured : List String → List String
  unconfigured [] = []
  unconfigured (k ∷ ks) = if is_configured k then unconfigured ks else k ∷ unconfigured ks

  prefetch_one-skipped :
      (n : ℕ) (k : String) (s : H.State) {r : Prefetched}
      → (prefetch_one H d platform n k s).0 ≡ ok r
      → is_configured k ≡ false
      → r ≡ skipped
  unfolding prefetch_one
  prefetch_one-skipped n k s e c = ground arith

  prefetch_one-configured :
      (n : ℕ) (k : String) (s : H.State)
      → (prefetch_one H d platform n k s).0 ≡ ok skipped
      → is_configured k ≡ false
  unfolding prefetch_one
  prefetch_one-configured n k s e = ground arith

  -- What the loop puts on the lists, if nothing is missing when it ends.
  abbrev Sorted : List String → Lists → Lists → Type 0
  Sorted ks l r =
      r.missing_deps ≡ []
      → (l.missing_deps ≡ [])
        × (r.found_deps ≡ l.found_deps ++ configured ks)
        × (r.skipped_deps ≡ l.skipped_deps ++ unconfigured ks)

  snoc-nil : (xs : List String) (k : String) → xs ++ (k ∷ []) ≡ [] → ⊥
  snoc-nil [] k e = cc
  snoc-nil (x ∷ xs) k e = cc

  Sorted-cons :
      (w : Prefetched) (k : String) (ks : List String) (l r : Lists)
      → is_configured k ≡ (elim w [ skipped ↦ false | _ ↦ true ])
      → Sorted ks (sort_in w k l) r
      → Sorted (k ∷ ks) l r
  Sorted-cons skipped k ks l r c h m =
      let (none_missing, f, s) = h m in
      rw c (none_missing, f, s ∙ append_assoc l.skipped_deps (k ∷ []) (unconfigured ks))
  Sorted-cons found k ks l r c h m =
      let (none_missing, f, s) = h m in
      rw c (none_missing, f ∙ append_assoc l.found_deps (k ∷ []) (configured ks), s)
  Sorted-cons missing k ks l r c h m = absurd (snoc-nil l.missing_deps k (h m).0)

  prefetch_one-status :
      (n : ℕ) (k : String) (s : H.State) (w : Prefetched)
      → (prefetch_one H d platform n k s).0 ≡ ok w
      → is_configured k ≡ (elim w [ skipped ↦ false | _ ↦ true ])
  unfolding prefetch_one
  prefetch_one-status n k s w e = ground arith

  loop_nil :
      (n : ℕ) (l r : Lists) (s : H.State) → (prefetch_loop H d platform n [] l s).0 ≡ ok r → l ≡ r
  unfolding prefetch_loop
  loop_nil n l r s e = cc

  loop_cons :
      (n : ℕ) (k : String) (ks : List String) (l r : Lists) (s : H.State)
      → (prefetch_loop H d platform n (k ∷ ks) l s).0 ≡ ok r
      → (w : Prefetched) × ((prefetch_one H d platform n k s).0 ≡ ok w)
        × ((prefetch_loop H d platform n ks (sort_in w k l) (prefetch_one H d platform n k s).1).0
            ≡ ok r)
  unfolding prefetch_loop
  loop_cons n k ks l r s e = elim (Result-cases (prefetch_one H d platform n k s).0) [
    | inl (w, one) ↦ (w, one, ground arith)
    | inr (x, bad) ↦ absurd (ground arith)
  ]

  prefetch_loop-Sorted :
      (n : ℕ) (ks : List String) (l r : Lists) (s : H.State)
      → (prefetch_loop H d platform n ks l s).0 ≡ ok r
      → Sorted ks l r
  prefetch_loop-Sorted n [] l r s e =
      subst (Sorted [] l) (loop_nil n l r s e)
        (λ m. (m, sym (append-nil l.found_deps), sym (append-nil l.skipped_deps)))
  prefetch_loop-Sorted n (k ∷ ks) l r s e =
      let (w, one, rest) = loop_cons n k ks l r s e in
      Sorted-cons w k ks l r (prefetch_one-status n k s w one)
        (prefetch_loop-Sorted n ks (sort_in w k l) r _ rest)

  abbrev no_deps : Lists
  no_deps = record { found_deps = []; skipped_deps = []; missing_deps = [] }

  paths_loop :
      (dependencies : List String) (n : ℕ) (s : H.State) {f k : List String}
      → (prefetch_paths H d platform dependencies n s).0 ≡ ok (f, k)
      → let asked = if is_empty dependencies then keys d else dependencies in
        (r : Lists) × ((prefetch_loop H d platform n asked no_deps s).0 ≡ ok r)
        × (r.missing_deps ≡ [])
        × (r.found_deps ≡ f)
        × (r.skipped_deps ≡ k)
  unfolding prefetch_paths
  paths_loop dependencies n s e =
      let asked = if is_empty dependencies then keys d else dependencies in
      elim (Result-cases (prefetch_loop H d platform n asked no_deps s).0) [
        | inl (r, one) ↦
            (r, one, ground (arith, is_empty-nil r.missing_deps), ground arith, ground arith)
        | inr (x, bad) ↦ absurd (ground arith)
      ]

  -- If PrefetchPaths returns, then every dependency asked for, or every known one if none was
  -- named, is on one of its two lists, in order: on the first if an info is looked up for it on
  -- the platform, on the second if not.
  pub prefetch_paths-sorted :
      (dependencies : List String) (retries : ℕ) (s : H.State)
      {found_deps skipped_deps : List String}
      → (prefetch_paths H d platform dependencies retries s).0 ≡ ok (found_deps, skipped_deps)
      → let asked = if is_empty dependencies then keys d else dependencies in
        (found_deps ≡ configured asked) × (skipped_deps ≡ unconfigured asked)
  prefetch_paths-sorted dependencies retries s e =
      let asked = if is_empty dependencies then keys d else dependencies in
      let (r, loop, none_missing, f, k) = paths_loop dependencies retries s e in
      let (_, fs, ks) = prefetch_loop-Sorted retries asked no_deps r s loop none_missing in
      (sym f ∙ fs, sym k ∙ ks)

module _ (H : Host) (i : DependencyInfo) where
  -- The state behind a number of calls of GetRemotePath.
  abbrev pub state_after : ℕ → H.State → H.State
  state_after zero s = s
  state_after (suc n) s = state_after n (get_remote_path H i s).1

  retry :
      (n : ℕ) (s : H.State)
      → (get_remote_path H i s).0 ≡ err cloud_storage_error
      → fetch_with_retries H (suc n) i s ≡ fetch_with_retries H n i (get_remote_path H i s).1
  unfolding fetch_with_retries
  retry n s e = ground arith

  stop_at :
      (n : ℕ) (s : H.State) (r : Result (Option String))
      → (get_remote_path H i s).0 ≡ r
      → r ≢ err cloud_storage_error
      → fetch_with_retries H (suc n) i s ≡ (r, (get_remote_path H i s).1)
  unfolding fetch_with_retries
  stop_at n s (ok path) e h = ground arith
  stop_at n s (err cloud_storage_error) e h = absurd (h refl)
  stop_at n s (err value_error) e h = ground arith
  stop_at n s (err archive_error) e h = ground arith
  stop_at n s (err file_not_found) e h = ground arith
  stop_at n s (err no_path_found) e h = ground arith
  stop_at n s (err os_error) e h = ground arith

  fetch_with_retries-rounds :
      (rounds n : ℕ) (s : H.State)
      → ((j : ℕ) → j < n → (get_remote_path H i (state_after j s)).0 ≡ err cloud_storage_error)
      → (n ≡ rounds → fetch_with_retries H rounds i s ≡ (ok none, state_after n s))
        × (n < rounds
            → (get_remote_path H i (state_after n s)).0 ≢ err cloud_storage_error
            → fetch_with_retries H rounds i s ≡ get_remote_path H i (state_after n s))
  fetch_with_retries-rounds zero zero s h =
      (λ e. unfold fetch_with_retries in refl, λ l. absurd (omega arith))
  fetch_with_retries-rounds zero (suc n) s h =
      (λ e. absurd (omega arith), λ l. absurd (omega arith))
  fetch_with_retries-rounds (suc rounds) zero s h =
      (λ e. absurd (omega arith), λ l other. stop_at rounds s _ refl other)
  fetch_with_retries-rounds (suc rounds) (suc n) s h =
      let (never, once) =
        fetch_with_retries-rounds rounds n (get_remote_path H i s).1
          (λ j l. h (suc j) (omega arith)) in
      let again = retry rounds s (h zero (omega arith)) in
      (λ e. again ∙ never (omega arith), λ l other. again ∙ once (omega arith) other)

  -- Where a number of calls of GetRemotePath, fewer than the loop of PrefetchPaths has rounds,
  -- raise CloudStorageError and the next one does not, that one decides the result, be it with a
  -- path or with another exception.
  pub fetch_with_retries-first :
      (rounds n : ℕ) (s : H.State)
      → n < rounds
      → ((j : ℕ) → j < n → (get_remote_path H i (state_after j s)).0 ≡ err cloud_storage_error)
      → (get_remote_path H i (state_after n s)).0 ≢ err cloud_storage_error
      → fetch_with_retries H rounds i s ≡ get_remote_path H i (state_after n s)
  fetch_with_retries-first rounds n s l h other = (fetch_with_retries-rounds rounds n s h).1 l other

  -- Where every round of the loop raises CloudStorageError, the loop ends without a path.
  fetch_with_retries-never :
      (rounds : ℕ) (s : H.State)
      → ((j : ℕ) → j < rounds → (get_remote_path H i (state_after j s)).0 ≡ err cloud_storage_error)
      → fetch_with_retries H rounds i s ≡ (ok none, state_after rounds s)
  fetch_with_retries-never rounds s h = (fetch_with_retries-rounds rounds rounds s h).0 refl
