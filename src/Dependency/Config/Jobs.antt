-- ===== src/Dependency/Config/Jobs.antt =====
-- `ExecuteUpdateJobs` and `AddCloudStorageDependencyUpdateJob` of a BaseConfig.
use car_multimedia_android_a.Base.{
  Bool, true, false, not, ◌&&◌, ◌||◌, Option, none, some, List, [], ◌∷◌, ◌++◌, String, ◌<>◌, str_eq,
  is_empty, if◌then◌else◌,
}
use car_multimedia_android_a.Base.Dict.{lookup}
use car_multimedia_android_a.Dependency.Uploader.{
  CloudStorage, Uploader, completed, conflict, storage_error, new_uploader, upload_all,
  rollback_all,
}
use car_multimedia_android_a.Dependency.Config.Data.{ConfigData, data_eq, is_empty_dependency}
use car_multimedia_android_a.Dependency.Config.Platform.{
  BaseConfig, Error, read_write, value_error, write_failed, rollback_failed, upload_failed, Result,
  ok, err, ◌>>=◌, ◌>>◌, guard, get_platform, get_platform_data, set_platform_data,
}

-- How _WriteConfigToFile ends: it raises before the file is open, it raises behind that, which
-- leaves a text that is no json, or it returns.
pub data Writing : Type 0 where
  not_opened cut_off written : Writing

-- The rest of the machine: which local paths exist, the hash of a local file, and how a write of
-- the config file ends.
pub record Machine : Type 0 where
  pub path_exists : String → Bool
  pub calculate_hash : String → String
  pub write_config : Writing

-- `_CloudStorageRemotePath`
unfoldable pub cloud_storage_remote_path : String → String → Option String → String
cloud_storage_remote_path dependency cs_hash none = dependency <> "_" <> cs_hash
cloud_storage_remote_path dependency cs_hash (some folder) =
    let cs_remote_file = dependency <> "_" <> cs_hash in
    if str_eq folder "" then cs_remote_file else folder <> "/" <> cs_remote_file

abbrev pub is_ok {ℓ} : {A : Type ℓ} → Result A → Bool
is_ok (ok _) = true
is_ok (err _) = false

-- The dependency is named in the config, and its dict is not empty.
abbrev pub has_dependency : ConfigData → String → Bool
has_dependency d dependency = elim (lookup dependency d) [
  | none ↦ false
  | some entry ↦ not (is_empty_dependency entry)
]

module _ (S : CloudStorage) where
  -- A config in memory, the data in its file, `none` where that is no json, and cloud storage.
  pub record World : Type 0 where
    pub config : BaseConfig
    pub file : Option ConfigData
    pub cloud : S.State

  -- `_IsDirty`, where json.load may raise a ValueError
  unfoldable pub is_dirty : World → Result Bool
  is_dirty w = elim w.file [
    | none ↦ err value_error
    | some curr ↦ ok (not (data_eq w.config.config_data curr))
  ]

  -- `_ValidateIsConfigUpdatable` with no arguments
  abbrev pub validate_is_config_updatable : World → Result (Unit {0})
  validate_is_config_updatable w = guard w.config.writable read_write

  -- `_ValidateIsConfigUpdatable` with all of them
  unfoldable pub validate_is_job_allowed : World → Bool → String → String → Result (Unit {0})
  validate_is_job_allowed w execute_job dependency platform = do
    guard w.config.writable read_write
    dirty ← is_dirty w
    guard (not (dirty && execute_job)) read_write
    guard (str_eq dependency "" || has_dependency w.config.config_data dependency) value_error
    guard (str_eq platform "" || is_ok (get_platform w.config.config_data dependency platform))
        value_error

  module _ (m : Machine) where
    -- The `except` clause of ExecuteUpdateJobs, which raises `e` again.
    unfoldable pub undo_uploads : Error → List Uploader → S.State → World → Result Bool × World
    undo_uploads e pending cloud w =
        let (fine, pending', cloud') = rollback_all S pending cloud in
        (
          err (if fine then e else rollback_failed),
          record w { config = record (w.config) { pending_uploads = pending' }; cloud = cloud' },
        )

    -- The `try` statement of ExecuteUpdateJobs.
    unfoldable pub upload_and_write : Bool → World → Result Bool × World
    unfolding undo_uploads
    upload_and_write force w =
        let (out, pending, cloud) = upload_all S force w.config.pending_uploads w.cloud in
        elim out [
          | completed ↦ elim m.write_config [
            | written ↦ (
              ok true,
              record {
                config = record (w.config) { pending_uploads = [] };
                file = some w.config.config_data;
                cloud = cloud;
              },
            )
            | not_opened ↦ undo_uploads write_failed pending cloud w
            | cut_off ↦ undo_uploads write_failed pending cloud (record w { file = none })
          ]
          | conflict ↦ undo_uploads (upload_failed conflict) pending cloud w
          | storage_error ↦ undo_uploads (upload_failed storage_error) pending cloud w
        ]

    unfoldable pub execute_update_jobs : Bool → World → Result Bool × World
    execute_update_jobs force w = elim (validate_is_config_updatable w) [
      | err e ↦ (err e, w)
      | ok _ ↦ elim (is_dirty w) [
        | err e ↦ (err e, w)
        | ok dirty ↦
            if not dirty
            then (ok false, w)
            else if is_empty w.config.pending_uploads
            then (ok true, w)
            else upload_and_write force w
      ]
    ]

    -- The changes of AddCloudStorageDependencyUpdateJob to the config data; a `version` that is
    -- empty or missing is not written.
    unfoldable pub record_update :
        BaseConfig → String → String → String → Option String → Result BaseConfig
    record_update c dependency platform cs_hash version = do
      c' ← (elim version [
        | none ↦ ok c
        | some v ↦
            if str_eq v "" then ok c else set_platform_data c dependency platform "version_in_cs" v
      ])
      set_platform_data c' dependency platform "cloud_storage_hash" cs_hash

    abbrev pub text_of : Option String → String
    text_of none = ""
    text_of (some t) = t

    -- The upload that a job adds, from the data that it has changed.
    unfoldable pub new_job : ConfigData → String → String → String → String → Result Uploader
    unfolding cloud_storage_remote_path
    new_job d dependency platform cs_hash dependency_path = do
      cs_base_folder ← get_platform_data d dependency platform "cloud_storage_base_folder"
      cs_bucket ← get_platform_data d dependency platform "cloud_storage_bucket"
      let remote = cloud_storage_remote_path dependency cs_hash cs_base_folder
      elim (new_uploader m.path_exists (text_of cs_bucket) remote dependency_path) [
        | none ↦ err value_error
        | some u ↦ ok u
      ]

    -- The end of AddCloudStorageDependencyUpdateJob: the data is changed also if no upload can be
    -- made.
    unfoldable pub add_job :
        World → BaseConfig → String → String → String → String → Bool → Result (Unit {0}) × World
    unfolding new_job
    add_job w c dependency platform cs_hash dependency_path execute_job =
        elim (new_job c.config_data dependency platform cs_hash dependency_path) [
          | err e ↦ (err e, record w { config = c })
          | ok u ↦
              let w' : World = record w {
                config = record c { pending_uploads = c.pending_uploads ++ (u ∷ []) };
              } in
              let (result, w'') = execute_update_jobs false w' in
              if execute_job
              then (elim result [ ok _ ↦ ok tt | err e ↦ err e ], w'')
              else (ok tt, w')
        ]

    unfoldable pub add_cloud_storage_dependency_update_job :
        World → String → String → String → Option String → Bool → Result (Unit {0}) × World
    unfolding validate_is_job_allowed record_update
    add_cloud_storage_dependency_update_job w dependency platform dependency_path version
          execute_job =
        let cs_hash = m.calculate_hash dependency_path in
        elim (validate_is_job_allowed w execute_job dependency platform) [
          | err e ↦ (err e, w)
          | ok _ ↦ elim (record_update w.config dependency platform cs_hash version) [
            | err e ↦ (err e, w)
            | ok c ↦ add_job w c dependency platform cs_hash dependency_path execute_job
          ]
        ]
