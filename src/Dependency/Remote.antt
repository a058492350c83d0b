-- ===== src/Dependency/Remote.antt =====
-- `ArchiveInfo` and `CloudStorageInfo` of dependency_manager: a downloaded file, unzipped where it
-- is an archive.
use car_multimedia_android_a.Base.{
  ℕ, ◌≡◌, refl, ap, sym, ◌∙◌, Bool, true, false, not, ◌&&◌, Option, none, some, List, [], ◌∷◌,
  String, str_eq, if◌then◌else◌, arith,
}

pub data Error : Type 0 where
  value_error archive_error file_not_found no_path_found cloud_storage_error os_error : Error

pub data Result {ℓ} (A : Type ℓ) : Type ℓ where
  ok : A → Result A
  err : Error → Result A

-- How `os.makedirs` ends; `race` is an OSError with EEXIST.
pub data MakeDirs : Type 0 where
  made race failed : MakeDirs

-- The file system, cloud_storage.GetIfHashChanged and dependency_manager_util.UnzipArchive.
-- A result `some e` is an exception.
pub record Host : Type 1 where
  pub State : Type 0
  pub path_exists : State → String → Bool
  pub mtime : State → String → ℕ
  pub makedirs : State → String → MakeDirs × State
  pub get_if_hash_changed : State → String → String → String → String → Option Error × State
  pub glob : State → String → List String
  pub rmtree : State → String → Option Error × State
  pub unzip_archive : State → String → String → Option Error × State
  pub make_executable : State → String → Option Error × State
  pub dirname : String → String
  pub abspath : String → String
  pub join : String → String → String

-- `os.chmod` removes and creates no file, and '' is the path of none.
pub record IsLawful (H : Host) : Type 0 where
  pub exists-empty : (s : H.State) → H.path_exists s "" ≡ false
  pub exists-make_executable :
      (s : H.State) (p q : String) → H.path_exists (H.make_executable s p).1 q ≡ H.path_exists s q

pub record ArchiveInfo : Type 0 where
  pub archive_file : String
  pub unzip_path : String
  pub dependency_path : String
  pub stale_unzip_path_glob : String

pub record CloudStorageInfo : Type 0 where
  pub cs_bucket : String
  pub cs_hash : String
  pub download_path : String
  pub cs_remote_path : String
  pub version_in_cs : Option String
  pub archive_info : Option ArchiveInfo

-- `ArchiveInfo._has_minimum_data`
abbrev pub has_archive_data : ArchiveInfo → Bool
has_archive_data a =
    not (str_eq a.archive_file "")
    && not (str_eq a.unzip_path "")
    && not (str_eq a.dependency_path "")

-- `CloudStorageInfo._has_minimum_data`
abbrev pub has_storage_data : CloudStorageInfo → Bool
has_storage_data c =
    not (str_eq c.cs_bucket "")
    && not (str_eq c.cs_remote_path "")
    && not (str_eq c.download_path "")
    && not (str_eq c.cs_hash "")

module _ (H : Host) where
  -- `ArchiveInfo.__init__`; `none` is its ValueError.
  unfoldable pub new_archive_info : String → String → String → String → Option ArchiveInfo
  new_archive_info archive_file unzip_path path_within_archive stale_unzip_path_glob =
      let a : ArchiveInfo = record {
        archive_file = archive_file;
        unzip_path = unzip_path;
        dependency_path = H.join unzip_path path_within_archive;
        stale_unzip_path_glob = stale_unzip_path_glob;
      } in
      if has_archive_data a then some a else none

  -- `ShouldUnzipArchive`
  unfoldable pub should_unzip_archive : ArchiveInfo → H.State → Result Bool
  should_unzip_archive a s =
      if has_archive_data a then ok (not (H.path_exists s a.dependency_path)) else err archive_error

  -- `shutil.rmtree` on each of the paths
  unfoldable pub remove_all : List String → H.State → Option Error × H.State
  remove_all [] s = (none, s)
  remove_all (p ∷ ps) s =
      let (raised, s1) = H.rmtree s p in
      let rest = remove_all ps s1 in elim raised [ some e ↦ (some e, s1) | none ↦ rest ]

  -- What follows a call that may have raised `e`
  abbrev pub unless_raised :
      {A : Type 0} → Option Error × H.State → (H.State → Result A × H.State) → Result A × H.State
  unless_raised (some e, s) k = (err e, s)
  unless_raised (none, s) k = k s

  -- The body of `GetUnzippedPath` where the archive is to be unzipped.
  unfoldable pub unzip : ArchiveInfo → H.State → Result String × H.State
  unfolding remove_all
  unzip a s =
      unless_raised
        (if str_eq a.stale_unzip_path_glob ""
          then (none, s)
          else remove_all (H.glob s a.stale_unzip_path_glob) s)
        (λ s1. unless_raised (H.unzip_archive s1 a.archive_file a.unzip_path) (λ s2.
          elim (should_unzip_archive a s2) [
            | err e ↦ (err e, s2)
            | ok again ↦ if again then (err archive_error, s2) else (ok a.dependency_path, s2)
          ]))

  -- `GetUnzippedPath`
  unfoldable pub get_unzipped_path : ArchiveInfo → H.State → Result String × H.State
  unfolding unzip should_unzip_archive
  get_unzipped_path a s = elim (should_unzip_archive a s) [
    | err e ↦ (err e, s)
    | ok should ↦ if should then unzip a s else (ok a.dependency_path, s)
  ]

  -- Whether the directory of the download can be used: the OSError of a race is dropped.
  unfoldable pub prepare_directory : CloudStorageInfo → H.State → Bool × H.State
  prepare_directory c s =
      let download_dir = H.dirname c.download_path in
      let (made_dirs, s') = H.makedirs s download_dir in
      if H.path_exists s download_dir
      then (true, s)
      else elim made_dirs [ made ↦ (true, s') | race ↦ (true, s') | failed ↦ (false, s') ]

  -- The end of `GetRemotePath`, behind the download of `path`
  unfoldable pub use_download : Option ArchiveInfo → String → H.State → Result String × H.State
  unfolding get_unzipped_path
  use_download none path s = unless_raised (H.make_executable s path) (λ s1. (ok path, s1))
  use_download (some a) path s = get_unzipped_path a s

  abbrev pub map_ok :
      (String → Option String) → Result String × H.State → Result (Option String) × H.State
  map_ok f (ok p, s) = (ok (f p), s)
  map_ok f (err e, s) = (err e, s)

  -- `CloudStorageInfo.GetRemotePath`
  unfoldable pub get_remote_path : CloudStorageInfo → H.State → Result (Option String) × H.State
  get_remote_path c s =
      let (usable, s1) = prepare_directory c s in
      let (raised, s2) =
        H.get_if_hash_changed s1 c.cs_remote_path c.download_path c.cs_bucket c.cs_hash in
      if not (has_storage_data c)
      then (ok none, s)
      else if not usable
      then (err os_error, s1)
      else elim raised [
        | some e ↦ (err e, s2)
        | none ↦
            if H.path_exists s2 c.download_path
            then map_ok (λ p. some (H.abspath p)) (use_download c.archive_info c.download_path s2)
            else (err file_not_found, s2)
      ]

  -- The file that GetRemotePath promises.
  abbrev pub target : Option ArchiveInfo → String → String
  target none path = path
  target (some a) path = a.dependency_path

  get_unzipped_path-ok :
      (a : ArchiveInfo) (s : H.State) {p : String}
      → (get_unzipped_path a s).0 ≡ ok p
      → (p ≡ a.dependency_path) × (H.path_exists (get_unzipped_path a s).1 p ≡ true)
  unfolding get_unzipped_path
  get_unzipped_path-ok a s h = ground arith

  unless_raised-ok :
      {A : Type 0} (r : Option Error × H.State) (a : A) {p : A}
      → (unless_raised r (λ s1. (ok a, s1))).0 ≡ ok p
      → (a ≡ p) × ((unless_raised r (λ s1. (ok a, s1))).1 ≡ r.1)
  unless_raised-ok (some e, s) a h = absurd (cc)
  unless_raised-ok (none, s) a h = (cc, refl)

  use_download-ok :
      IsLawful H
      → (o : Option ArchiveInfo) (path : String) (s : H.State) {p : String}
      → H.path_exists s path ≡ true
      → (use_download o path s).0 ≡ ok p
      → (p ≡ target o path) × (H.path_exists (use_download o path s).1 (target o path) ≡ true)
  unfolding use_download
  use_download-ok L none path s e h =
      let (same, state) = unless_raised-ok (H.make_executable s path) path h in
      (sym same, ap (λ t. H.path_exists t path) state ∙ L.exists-make_executable s path path ∙ e)
  use_download-ok L (some a) path s e h =
      let (same, there) = get_unzipped_path-ok a s h in
      (same, ap (H.path_exists (get_unzipped_path a s).1) (sym same) ∙ there)

  map_ok-some :
      (f : String → Option String) (r : Result String × H.State) {q : String}
      → (map_ok f r).0 ≡ ok (some q)
      → (p : String) × (r.0 ≡ ok p) × (f p ≡ some q) × ((map_ok f r).1 ≡ r.1)
  map_ok-some f (ok p, s) h = (p, refl, cc, refl)
  map_ok-some f (err e, s) h = absurd (cc)

  -- The state behind the download.
  abbrev downloaded : CloudStorageInfo → H.State → H.State
  downloaded c s =
      (H.get_if_hash_changed (prepare_directory c s).1 c.cs_remote_path c.download_path c.cs_bucket
        c.cs_hash).1

  get_remote_path-downloaded :
      (c : CloudStorageInfo) (s : H.State) {p : String}
      → (get_remote_path c s).0 ≡ ok (some p)
      → (H.path_exists (downloaded c s) c.download_path ≡ true)
        × (get_remote_path c s
            ≡ map_ok
                (λ p. some (H.abspath p))
                (use_download c.archive_info c.download_path (downloaded c s)))
  unfolding get_remote_path
  get_remote_path-downloaded c s h = ground arith

  -- A path that GetRemotePath returns is the absolute path of the file that it promises, the
  -- download or what was unzipped from it, and that file exists when the call ends.
  pub get_remote_path-ok :
      IsLawful H
      → (c : CloudStorageInfo) (s : H.State) {p : String} → (get_remote_path c s).0 ≡ ok (some p)
      → (p ≡ H.abspath (target c.archive_info c.download_path))
        × (H.path_exists (get_remote_path c s).1 (target c.archive_info c.download_path) ≡ true)
  get_remote_path-ok L c s h =
      let (there, same) = get_remote_path-downloaded c s h in
      let (q, used, abs, end) =
        map_ok-some (λ p. some (H.abspath p))
          (use_download c.archive_info c.download_path (downloaded c s))
          (sym (ap (λ r. r.0) same) ∙ h) in
      let (q_target, q_there) =
        use_download-ok L c.archive_info c.download_path (downloaded c s) there used in
      (
        cc,
        ap (λ r. H.path_exists r.1 (target c.archive_info c.download_path)) same
            ∙ ap (λ t. H.path_exists t (target c.archive_info c.download_path)) end
            ∙ q_there,
      )
