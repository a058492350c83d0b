-- ===== src/Dependency/Uploader.antt =====
-- `CloudStorageUploader` of dependency_manager/uploader.py, and the loops over pending uploads of
-- BaseConfig.ExecuteUpdateJobs. Cloud storage is an interface, since gsutil decides what it does.
pub mod Rollback
pub mod Atomic
use car_multimedia_android_a.Base.{
  ◌≡◌, Bool, true, false, ◌&&◌, Option, none, some, List, [], ◌∷◌, String, ◌<>◌, str_eq, is_some,
  if◌then◌else◌,
}

-- The functions of py_utils/cloud_storage.py that are called. `false` is a CloudStorageError, and
-- so is `none`.
pub record CloudStorage : Type 1 where
  pub State : Type 0
  pub File : Type 0
  pub contents : State → String → String → Option File
  pub local_file : String → File
  pub exists : State → String → String → Option Bool
  pub copy : State → String → String → String → Bool × State
  pub insert : State → String → String → String → Bool × State
  pub delete : State → String → String → Bool × State

-- What the uploader relies on: a call that fails changes nothing, and a call that succeeds changes
-- one object, the one that it names.
pub record IsLawful (S : CloudStorage) : Type 0 where
  pub exists-contents :
      (s : S.State) (b p : String) {e : Bool}
      → S.exists s b p ≡ some e
      → is_some (S.contents s b p) ≡ e
  pub copy_failed :
      (s : S.State) (b p q c r : String)
      → (S.copy s b p q).0 ≡ false
      → S.contents (S.copy s b p q).1 c r ≡ S.contents s c r
  pub copy_done :
      (s : S.State) (b p q c r : String)
      → (S.copy s b p q).0 ≡ true
      → S.contents (S.copy s b p q).1 c r
        ≡ (if str_eq b c && str_eq q r then S.contents s b p else S.contents s c r)
  pub insert_failed :
      (s : S.State) (b p l c r : String)
      → (S.insert s b p l).0 ≡ false
      → S.contents (S.insert s b p l).1 c r ≡ S.contents s c r
  pub insert_done :
      (s : S.State) (b p l c r : String)
      → (S.insert s b p l).0 ≡ true
      → S.contents (S.insert s b p l).1 c r
        ≡ (if str_eq b c && str_eq p r then some (S.local_file l) else S.contents s c r)
  pub delete_done :
      (s : S.State) (b p c r : String)
      → (S.delete s b p).0 ≡ true
      → S.contents (S.delete s b p).1 c r
        ≡ (if str_eq b c && str_eq p r then none else S.contents s c r)

pub record Uploader : Type 0 where
  pub cs_bucket : String
  pub cs_remote_path : String
  pub local_path : String
  pub cs_backup_path : Option String
  pub updated : Bool
  pub backed_up : Bool

-- `CloudStorageUploader.__init__` with no backup path given; `none` is its ValueError.
unfoldable pub new_uploader : (String → Bool) → String → String → String → Option Uploader
new_uploader path_exists bucket remote_path local_path =
    if str_eq bucket ""
    then none
    else if str_eq remote_path ""
    then none
    else if str_eq local_path ""
    then none
    else if path_exists local_path
    then some (record {
      cs_bucket = bucket;
      cs_remote_path = remote_path;
      local_path = local_path;
      cs_backup_path = some (remote_path <> ".old");
      updated = false;
      backed_up = false;
    })
    else none

-- `'%s' % path` in the URL that Copy builds
abbrev pub path_text : Option String → String
path_text none = "None"
path_text (some p) = p

pub data Outcome : Type 0 where
  completed conflict storage_error : Outcome

module _ (S : CloudStorage) where
  -- The second half of `Upload`.
  unfoldable pub insert_file : Uploader → S.State → Outcome × Uploader × S.State
  insert_file u s =
      let (done, s') = S.insert s u.cs_bucket u.cs_remote_path u.local_path in
      if done then (completed, record u { updated = true }, s') else (storage_error, u, s')

  -- The copy to the backup location, where a file is in the way.
  unfoldable pub back_up : Uploader → S.State → Outcome × Uploader × S.State
  unfolding insert_file
  back_up u s =
      let (done, s') = S.copy s u.cs_bucket u.cs_remote_path (path_text u.cs_backup_path) in
      if done then insert_file (record u { backed_up = true }) s' else (storage_error, u, s')

  unfoldable pub upload : Bool → Uploader → S.State → Outcome × Uploader × S.State
  unfolding back_up insert_file
  upload force u s = elim (S.exists s u.cs_bucket u.cs_remote_path) [
    | none ↦ (storage_error, u, s)
    | some there ↦
        if there then if force then back_up u s else (conflict, u, s) else insert_file u s
  ]

  -- `Rollback`: whether something was changed back, or `none` for a CloudStorageError.
  unfoldable pub rollback : Uploader → S.State → Option Bool × Uploader × S.State
  rollback u s =
      if u.backed_up
      then (let (done, s') = S.copy s u.cs_bucket (path_text u.cs_backup_path) u.cs_remote_path in
          if done
          then (some true, record u { cs_backup_path = none; updated = false }, s')
          else (none, u, s'))
      else if u.updated
      then (let (done, s') = S.delete s u.cs_bucket u.cs_remote_path in
          if done then (some true, record u { updated = false }, s') else (none, u, s'))
      else (some false, record u { updated = false }, s)

  -- `for item in self._pending_uploads: item.Upload(force)`, up to the first exception.
  unfoldable pub upload_all : Bool → List Uploader → S.State → Outcome × List Uploader × S.State
  upload_all force [] s = (completed, [], s)
  upload_all force (u ∷ us) s =
      let (out, u', s') = upload force u s in
      let (out', us', s'') = upload_all force us s' in
      elim out [
        | completed ↦ (out', u' ∷ us', s'')
        | conflict ↦ (conflict, u' ∷ us, s')
        | storage_error ↦ (storage_error, u' ∷ us, s')
      ]

  -- `for item in reversed(self._pending_uploads): item.Rollback()`; the last item comes first.
  unfoldable pub rollback_all : List Uploader → S.State → Bool × List Uploader × S.State
  rollback_all [] s = (true, [], s)
  rollback_all (u ∷ us) s =
      let (fine, us', s') = rollback_all us s in
      let (changed, u', s'') = rollback u s' in
      if fine
      then elim changed [ none ↦ (false, u' ∷ us', s'') | some _ ↦ (true, u' ∷ us', s'') ]
      else (false, u ∷ us', s')
