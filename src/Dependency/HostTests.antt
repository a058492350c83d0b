-- ===== src/Dependency/HostTests.antt =====
-- A host in memory, and the theorems on downloads, configs that are read, and managers at it.
use car_multimedia_android_a.Base.{
  All, ℕ, zero, suc, ◌<◌, ◌≡◌, ◌≢◌, refl, true, false, not, Option, none, some, List, [], ◌∷◌,
  String, ◌<>◌, str_eq, arith,
}
use car_multimedia_android_a.Base.Dict.{lookup, insert}
use car_multimedia_android_a.Dependency.Config.Platform.{BaseConfig}
use car_multimedia_android_a.Dependency.Config.Jobs.{cloud_storage_remote_path}
use car_multimedia_android_a.Dependency.Remote.{
  Host, MakeDirs, made, CloudStorageInfo, target, get_remote_path-ok, Result, ok, err,
  cloud_storage_error,
}
use car_multimedia_android_a.Dependency.Remote
use car_multimedia_android_a.Dependency.Info.{DependencyInfo}
use car_multimedia_android_a.Dependency.Info
use car_multimedia_android_a.Dependency.Config.Infos.{platform_info, iter_dependency_info}
use car_multimedia_android_a.Dependency.Config.Infos.Pairs.{
  IsFrom, pairs, pairs_of, iter_dependency_info-pairs,
}
use car_multimedia_android_a.Dependency.Manager.{
  LookupDict, get_dependency_info, Config, new_dependency_manager, fetch_path_with_version,
  fetch_with_retries, prefetch_paths,
}
use car_multimedia_android_a.Dependency.Manager.Lookup.Found.{
  first_local_path, path_found, all_config_paths, config_paths_found, first_storage, storage_found,
  get_dependency_info-new_dependency_manager,
}
use car_multimedia_android_a.Dependency.Manager.Fetch.{Fetched, fetch_path_with_version-Fetched}
use car_multimedia_android_a.Dependency.Manager.Prefetch.{
  configured, unconfigured, prefetch_paths-sorted, state_after, fetch_with_retries-first,
}

-- A host that counts down the downloads that fail, and then has every file but ''.
abbrev host : Host
host = record {
  State = ℕ;
  path_exists = λ s p. not (str_eq p "");
  mtime = λ s p. 0;
  makedirs = λ s p. (made, s);
  get_if_hash_changed =
      λ s r p b h. elim s [ zero ↦ (none, zero) | suc n ↦ (some cloud_storage_error, n) ];
  glob = λ s p. [];
  rmtree = λ s p. (none, s);
  unzip_archive = λ s a p. (none, s);
  make_executable = λ s p. (none, s);
  dirname = λ p. "/";
  abspath = λ p. p;
  join = λ p q. p <> "/" <> q;
}

host-IsLawful : Remote.IsLawful host
host-IsLawful = record { exists-empty = λ s. refl; exists-make_executable = λ s p q. refl }

abbrev download : CloudStorageInfo
download = record {
  cs_bucket = "bucket";
  cs_hash = "1";
  download_path = "/dep";
  cs_remote_path = "dep_1";
  version_in_cs = some "7";
  archive_info = none;
}

get_remote_path-ok_example :
    ◌≡◌ {A = String} "/dep" "/dep"
    × (host.path_exists (Remote.get_remote_path host download 0).1 "/dep" ≡ true)
unfolding Remote.get_remote_path Remote.prepare_directory Remote.use_download
get_remote_path-ok_example = get_remote_path-ok host host-IsLawful download 0 refl

abbrev info : DependencyInfo
info = record {
  dependency = "dep";
  platform = "linux";
  config_paths = "/config" ∷ [];
  local_path_info = none;
  cloud_storage_info = some download;
}

abbrev table : LookupDict
table = ("dep", ("linux", info) ∷ []) ∷ []

fetch_path_with_version-Fetched_example :
    Fetched host host-IsLawful table "dep" "linux" 0
      (fetch_path_with_version host table "dep" "linux" 0)
fetch_path_with_version-Fetched_example =
    fetch_path_with_version-Fetched host host-IsLawful table "dep" "linux" 0

first :
    (j : ℕ)
    → j < 1
    → (Info.get_remote_path host info (state_after host info j 1)).0 ≡ err cloud_storage_error
unfolding Info.get_remote_path Remote.get_remote_path Remote.prepare_directory
first zero l = refl
first (suc j) l = absurd (omega arith)

second : (Info.get_remote_path host info 0).0 ≢ err cloud_storage_error
unfolding Info.get_remote_path Remote.get_remote_path Remote.prepare_directory Remote.use_download
second e = other (some "/dep") e
  where
    other : (o : Option String) → ok o ≡ err cloud_storage_error → ⊥
    other o e = cc

fetch_with_retries-first_example :
    fetch_with_retries host 3 info 1 ≡ Info.get_remote_path host info 0
unfolding Info.get_remote_path Remote.get_remote_path Remote.prepare_directory
fetch_with_retries-first_example =
    fetch_with_retries-first host info 3 1 1 (omega arith) first second

abbrev config_file : Config
config_file = record { config_type = "base"; infos = info ∷ []; complete = true }

get_dependency_info-new_dependency_manager_example :
    ((s : ℕ)
      → path_found host s (get_dependency_info table "dep" "linux")
        ≡ first_local_path host s "dep" "linux" (info ∷ []))
    × (config_paths_found (get_dependency_info table "dep" "linux")
        ≡ all_config_paths "dep" "linux" (info ∷ []))
    × (storage_found (get_dependency_info table "dep" "linux")
        ≡ first_storage "dep" "linux" (info ∷ []))
unfolding new_dependency_manager lookup Info.get_local_path insert
get_dependency_info-new_dependency_manager_example =
    get_dependency_info-new_dependency_manager host (config_file ∷ []) [] refl "dep" "linux"

prefetch_paths-sorted_example :
    (◌≡◌ {A = List String} ("dep" ∷ []) (configured host table "linux" ("dep" ∷ "other" ∷ [])))
    × (◌≡◌ {A = List String}
        ("other" ∷ [])
        (unconfigured host table "linux" ("dep" ∷ "other" ∷ [])))
unfolding prefetch_paths get_dependency_info lookup Info.get_local_path Info.get_remote_path
    Remote.get_remote_path Remote.prepare_directory Remote.use_download
prefetch_paths-sorted_example =
    prefetch_paths-sorted host table "linux" ("dep" ∷ "other" ∷ []) 3 2 refl

abbrev readable : BaseConfig
readable = record {
  config_path = "/config";
  writable = false;
  config_data =
      (
        "dep",
        record {
          texts = ("cloud_storage_bucket", "bucket") ∷ [];
          file_info = some (
              (
                "linux",
                record {
                  texts = ("cloud_storage_hash", "1") ∷ ("download_path", "bin\\dep") ∷ [];
                  local_paths = some ("bin/dep" ∷ []);
                },
              )
              ∷ ("default", record { texts = []; local_paths = some ("dep" ∷ []) })
              ∷ []);
        },
      )
      ∷ [];
  pending_uploads = [];
}

iter_dependency_info-pairs_example :
    (false ≡ false)
    × (pairs_of (iter_dependency_info host false readable).infos ≡ pairs readable.config_data)
    × All (IsFrom "/config") (iter_dependency_info host false readable).infos
unfolding iter_dependency_info platform_info lookup cloud_storage_remote_path
    Info.new_dependency_info
iter_dependency_info-pairs_example = iter_dependency_info-pairs host false readable refl
