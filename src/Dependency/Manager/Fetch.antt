-- ===== src/Dependency/Manager/Fetch.antt =====
-- Where FetchPathWithVersion takes a dependency from.
use car_multimedia_android_a.Base.{
  ◌≡◌, refl, ap, subst, ◌∙◌, true, not, ◌&&◌, Option, none, some, String, str_eq, arith, eq_iff,
  Bool-cases, inl, inr,
}
use car_multimedia_android_a.Dependency.LocalPaths.{LocalPathInfo}
use car_multimedia_android_a.Dependency.LocalPaths.Laws.{
  Chosen, nowhere, later, here, get_local_path-Chosen,
}
use car_multimedia_android_a.Dependency.Remote.{
  Host, IsLawful, Error, no_path_found, Result, ok, err,
}
use car_multimedia_android_a.Dependency.Info.{
  DependencyInfo, local_path_of, get_local_path, get_remote_path, get_remote_path_version,
}
use car_multimedia_android_a.Dependency.Manager.{
  LookupDict, get_dependency_info, existing_path, fetch_remote, fetch_path_with_version,
}

module _ (H : Host) (L : IsLawful H) where
  Chosen-exists :
      {s : H.State} {groups : LocalPathInfo} {o : Option String} {p : String}
      → Chosen (H.path_exists s) (H.mtime s) groups o
      → o ≡ some p
      → H.path_exists s p ≡ true
  Chosen-exists nowhere e = absurd (cc)
  Chosen-exists (later none_here rest) e = Chosen-exists rest e
  Chosen-exists {s = s} (here {p = q} member there latest) e =
      subst (λ x. H.path_exists s x ≡ true) (cc) there

  local_path_of-exists :
      (o : Option LocalPathInfo) (s : H.State) {p : String}
      → local_path_of H o s ≡ some p
      → H.path_exists s p ≡ true
  local_path_of-exists none s e = absurd (cc)
  local_path_of-exists (some groups) s e =
      Chosen-exists (get_local_path-Chosen (H.path_exists s) (H.mtime s) groups) e

  existing_path-local :
      (i : DependencyInfo) (s : H.State) (o : Option String)
      → get_local_path H i s ≡ o
      → existing_path H o s ≡ o
  unfolding get_local_path
  existing_path-local i s none e = refl
  existing_path-local i s (some p) e =
      ground (arith, local_path_of-exists i.local_path_info s e, eq_iff p "", L.exists-empty s)

  -- How FetchPathWithVersion may end, for a dependency on a platform in a state.
  pub data Fetched (d : LookupDict) (k p : String) (s : H.State)
      : Result (String × Option String) × H.State → Type 0 where
    unknown : get_dependency_info d k p ≡ none → Fetched d k p s (err no_path_found, s)
    from_disk :
        {i : DependencyInfo} {path : String}
        → get_dependency_info d k p ≡ some i
        → get_local_path H i s ≡ some path
        → H.path_exists s path ≡ true
        → Fetched d k p s (ok (path, none), s)
    from_storage :
        {i : DependencyInfo} {path : String} {t : H.State}
        → get_dependency_info d k p ≡ some i
        → get_local_path H i s ≡ none
        → get_remote_path H i s ≡ (ok (some path), t)
        → H.path_exists t path ≡ true
        → Fetched d k p s (ok (path, get_remote_path_version i), t)
    no_file :
        {i : DependencyInfo} {o : Option String} {t : H.State}
        → get_dependency_info d k p ≡ some i
        → get_local_path H i s ≡ none
        → get_remote_path H i s ≡ (ok o, t)
        → existing_path H o t ≡ none
        → Fetched d k p s (err no_path_found, t)
    failed :
        {i : DependencyInfo} {e : Error} {t : H.State}
        → get_dependency_info d k p ≡ some i
        → get_local_path H i s ≡ none
        → get_remote_path H i s ≡ (err e, t)
        → Fetched d k p s (err e, t)

  existing_path-some :
      (o : Option String) (s : H.State) {p : String}
      → existing_path H o s ≡ some p
      → (o ≡ some p) × (H.path_exists s p ≡ true)
  existing_path-some none s e = absurd (cc)
  existing_path-some (some q) s e = elim (Bool-cases (not (str_eq q "") && H.path_exists s q)) [
    | inl there ↦ ground arith
    | inr gone ↦ absurd (ground arith)
  ]

  remote_path-Fetched :
      (d : LookupDict) (k p : String) (s t : H.State) (i : DependencyInfo) (o : Option String)
      (q : Option String)
      → get_dependency_info d k p ≡ some i
      → get_local_path H i s ≡ none
      → get_remote_path H i s ≡ (ok o, t)
      → existing_path H o t ≡ q
      → Fetched d k p s (elim q [
        | none ↦ (err no_path_found, t)
        | some x ↦ (ok (x, get_remote_path_version i), t)
      ])
  remote_path-Fetched d k p s t i o none known gone remote none_there =
      no_file known gone remote none_there
  remote_path-Fetched d k p s t i o (some x) known gone remote there =
      let (same, exists) = existing_path-some o t there in
      from_storage known gone (remote ∙ ap (λ y. (ok y, t)) same) exists

  remote-Fetched :
      (d : LookupDict) (k p : String) (s : H.State) (i : DependencyInfo)
      (r : Result (Option String))
      → get_dependency_info d k p ≡ some i
      → get_local_path H i s ≡ none
      → (get_remote_path H i s).0 ≡ r
      → Fetched d k p s (fetch_remote H i s)
  unfolding fetch_remote
  remote-Fetched d k p s i (err e) known gone remote =
      let t = (get_remote_path H i s).1 in
      rw (remote, fetch_remote) (failed known gone (ap (λ r. (r, t)) remote))
  remote-Fetched d k p s i (ok o) known gone remote =
      let t = (get_remote_path H i s).1 in
      rw (remote, fetch_remote)
        (remote_path-Fetched d k p s t i o (existing_path H o t) known gone
          (ap (λ r. (r, t)) remote) refl)

  local-Fetched :
      (d : LookupDict) (k p : String) (s : H.State) (i : DependencyInfo) (o : Option String)
      → get_dependency_info d k p ≡ some i
      → get_local_path H i s ≡ o
      → Fetched d k p s (elim o [ none ↦ fetch_remote H i s | some x ↦ (ok (x, none), s) ])
  unfolding get_local_path
  local-Fetched d k p s i none known gone = remote-Fetched d k p s i _ known gone refl
  local-Fetched d k p s i (some x) known local =
      from_disk known local (local_path_of-exists i.local_path_info s local)

  info-Fetched :
      (d : LookupDict) (k p : String) (s : H.State) (o : Option DependencyInfo)
      → get_dependency_info d k p ≡ o
      → Fetched d k p s (elim o [
        | none ↦ (err no_path_found, s)
        | some i ↦ elim (existing_path H (get_local_path H i s) s) [
          | some x ↦ (ok (x, none), s)
          | none ↦ fetch_remote H i s
        ]
      ])
  info-Fetched d k p s none e = unknown e
  info-Fetched d k p s (some i) e =
      rw (existing_path-local i s (get_local_path H i s) refl)
        (local-Fetched d k p s i (get_local_path H i s) e refl)

  -- FetchPathWithVersion returns the local path, with no version and without touching anything,
  -- wherever the looked-up info finds one; otherwise what cloud storage delivers, if the file is
  -- there, with the version of the info; it raises NoPathFoundError if the dependency is unknown
  -- or no file is there, and passes on the exceptions of the download.
  pub fetch_path_with_version-Fetched :
      (d : LookupDict) (k p : String) (s : H.State)
      → Fetched d k p s (fetch_path_with_version H d k p s)
  unfolding fetch_path_with_version
  fetch_path_with_version-Fetched d k p s = info-Fetched d k p s (get_dependency_info d k p) refl
