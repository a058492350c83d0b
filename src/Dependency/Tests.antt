-- ===== src/Dependency/Tests.antt =====
-- A cloud storage in memory, and the theorems on uploads, updates and local paths at concrete data.
use car_multimedia_android_a.Base.{
  ℕ, ◌≡◌, refl, Bool, true, false, ◌&&◌, ◌||◌, Option, none, some, [], ◌∷◌, String, str_eq, is_some,
  if◌then◌else◌,
}
use car_multimedia_android_a.Base.Dict.{lookup, insert}
use car_multimedia_android_a.Dependency.LocalPaths.{LocalPathInfo, is_path_in_local_paths}
use car_multimedia_android_a.Dependency.LocalPaths
use car_multimedia_android_a.Dependency.LocalPaths.Laws.{
  or_else, Chosen, get_local_path-update, get_local_path-Chosen,
}
use car_multimedia_android_a.Dependency.Uploader.{CloudStorage, Uploader, upload_all, rollback_all}
use car_multimedia_android_a.Dependency.Uploader
use car_multimedia_android_a.Dependency.Uploader.Rollback.{Agree}
use car_multimedia_android_a.Dependency.Uploader.Atomic.{
  AreSeparate, in_backups, undone, rollback_all-upload_all,
}
use car_multimedia_android_a.Dependency.Config.Data.{ConfigData}
use car_multimedia_android_a.Dependency.Config.Platform.{
  BaseConfig, set_field, ok as done, set_platform_data, get_platform_data, overwrite,
  get_platform_data-set_platform_data,
}
use car_multimedia_android_a.Dependency.Config.Jobs.{Machine, Writing, World, execute_update_jobs}
use car_multimedia_android_a.Dependency.Config.Execute.{Executed, execute_update_jobs-Executed}

abbrev Objects : Type 0
Objects = String → String → Option String

abbrev put : Objects → String → String → Option String → Objects
put s b p file c r = if str_eq b c && str_eq p r then file else s c r

abbrev storage : CloudStorage
storage = record {
  State = Objects;
  File = String;
  contents = λ s b p. s b p;
  local_file = λ l. l;
  exists = λ s b p. some (is_some (s b p));
  copy = λ s b p q. (true, put s b q (s b p));
  insert = λ s b p l. (true, put s b p (some l));
  delete = λ s b p. (true, put s b p none);
}

storage-IsLawful : Uploader.IsLawful storage
storage-IsLawful = record {
  exists-contents = λ s b p e. cc;
  copy_failed = λ s b p q c r e. cc;
  copy_done = λ s b p q c r e. refl;
  insert_failed = λ s b p l c r e. cc;
  insert_done = λ s b p l c r e. refl;
  delete_done = λ s b p c r e. refl;
}

abbrev job : Uploader
job = record {
  cs_bucket = "bucket";
  cs_remote_path = "dep_1";
  local_path = "/dep";
  cs_backup_path = some "dep_1.old";
  updated = false;
  backed_up = false;
}

job-AreSeparate : AreSeparate (job ∷ [])
job-AreSeparate =
    (record { not_updated = refl; not_backed_up = refl; separate = refl }, refl, refl, tt)

abbrev empty_storage : Objects
empty_storage b p = none

rollback_all-upload_all_example :
    Agree storage storage-IsLawful
      (in_backups (job ∷ []))
      (undone storage storage-IsLawful false (job ∷ []) empty_storage).2
      empty_storage
unfolding upload_all rollback_all Uploader.upload Uploader.insert_file Uploader.rollback
rollback_all-upload_all_example =
    rollback_all-upload_all storage storage-IsLawful false (job ∷ []) empty_storage job-AreSeparate
      refl

abbrev data_1 : ConfigData
data_1 =
    (
      "dep",
      record {
        texts = ("cloud_storage_bucket", "bucket") ∷ [];
        file_info = some (
            ("linux", record { texts = ("cloud_storage_hash", "1") ∷ []; local_paths = none })
            ∷ []);
      },
    )
    ∷ []

abbrev config : BaseConfig
config = record {
  config_path = "/config";
  writable = true;
  config_data = data_1;
  pending_uploads = job ∷ [];
}

abbrev machine : Machine
machine = record {
  path_exists = λ p. true;
  calculate_hash = λ p. "2";
  write_config = Writing.written;
}

abbrev world : World storage
world = record { config = config; file = some []; cloud = empty_storage }

execute_update_jobs-Executed_example :
    Executed storage storage-IsLawful machine world
      (execute_update_jobs storage machine false world)
execute_update_jobs-Executed_example =
    execute_update_jobs-Executed storage storage-IsLawful machine false world job-AreSeparate

abbrev config_2 : BaseConfig
config_2 = record config {
  config_data =
      (
        "dep",
        record {
          texts = ("cloud_storage_bucket", "bucket") ∷ [];
          file_info = some (
              ("linux", record { texts = ("cloud_storage_hash", "2") ∷ []; local_paths = none })
              ∷ []);
        },
      )
      ∷ [];
}

written : set_platform_data config "dep" "linux" "cloud_storage_hash" "2" ≡ done config_2
unfolding set_platform_data lookup insert set_field
written = refl

get_platform_data-set_platform_data_example :
    get_platform_data config_2.config_data "dep" "linux" "cloud_storage_hash"
    ≡ overwrite "2" (get_platform_data data_1 "dep" "linux" "cloud_storage_hash")
get_platform_data-set_platform_data_example =
    get_platform_data-set_platform_data config config_2 "dep" "linux" "cloud_storage_hash" "2" "dep"
      "linux" "cloud_storage_hash" written

-- Two files are there, and the second is newer.
abbrev on_disk : String → Bool
on_disk p = str_eq p "/old" || str_eq p "/new"

abbrev age : String → ℕ
age p = if str_eq p "/new" then 2 else 1

abbrev groups_1 : LocalPathInfo
groups_1 = ("/gone" ∷ []) ∷ ("/old" ∷ "/new" ∷ []) ∷ []

get_local_path-update_example :
    (LocalPaths.get_local_path on_disk age (LocalPaths.update groups_1 (some (("/old" ∷ []) ∷ [])))
      ≡ or_else
          (LocalPaths.get_local_path on_disk age groups_1)
          (LocalPaths.get_local_path on_disk age (("/old" ∷ []) ∷ [])))
    × ((p : String)
        → is_path_in_local_paths (LocalPaths.update groups_1 (some (("/old" ∷ []) ∷ []))) p
          ≡ (is_path_in_local_paths groups_1 p || is_path_in_local_paths (("/old" ∷ []) ∷ []) p))
get_local_path-update_example = get_local_path-update on_disk age groups_1 (("/old" ∷ []) ∷ [])

get_local_path-Chosen_example :
    Chosen on_disk age groups_1 (LocalPaths.get_local_path on_disk age groups_1)
get_local_path-Chosen_example = get_local_path-Chosen on_disk age groups_1
