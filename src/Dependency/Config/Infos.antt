-- ===== src/Dependency/Config/Infos.antt =====
-- `IterDependencyInfo` of a BaseConfig: the infos that a manager reads from a config.
pub mod Pairs
use Prim.Native.Char.{Char, code}
use car_multimedia_android_a.Base.{
  ℕ, zero, suc, Bool, true, false, not, ◌&&◌, Option, none, some, List, [], ◌∷◌, ◌++◌, map, String,
  ◌<>◌, str_eq, is_empty, if◌then◌else◌, ◌==◌,
}
use car_multimedia_android_a.Base.Dict.{Dict, lookup}
use car_multimedia_android_a.Dependency.LocalPaths.{
  LocalPathInfo, PathEntry, path, parse_local_paths,
}
use car_multimedia_android_a.Dependency.Config.Data.{PlatformDict, DependencyDict, ConfigData}
use car_multimedia_android_a.Dependency.Config.Platform.{BaseConfig}
use car_multimedia_android_a.Dependency.Config.Jobs.{cloud_storage_remote_path}
use car_multimedia_android_a.Dependency.Remote.{
  Host, ArchiveInfo, CloudStorageInfo, has_storage_data, new_archive_info,
}
use car_multimedia_android_a.Dependency.Info.{DependencyInfo, new_dependency_info}
use car_multimedia_android_a.Dependency.Manager.{Config}

-- `file_path.replace(old, new)` for single characters
unfoldable pub replace_char : Char → Char → String → String
replace_char old new String.[] = String.[]
replace_char old new (String.◌∷◌ c s) =
    let rest = replace_char old new s in String.◌∷◌ (if code c == code old then new else c) rest

-- `_FormatPath`, where `os.path.sep` is a backslash or not
unfoldable pub format_path : Bool → String → String
unfolding replace_char
format_path true file_path = replace_char "/" "\\" file_path
format_path false file_path = replace_char "\\" "/" file_path

-- A text that is there and not empty, which makes it true.
abbrev pub truthy : Option String → Option String
truthy none = none
truthy (some t) = if str_eq t "" then none else some t

abbrev pub or_empty : Option String → String
or_empty none = ""
or_empty (some t) = t

-- `'[0-9a-f]' * n`
unfoldable pub hex_digits : ℕ → String
hex_digits zero = ""
hex_digits (suc n) = let rest = hex_digits n in "[0-9a-f]" <> rest

-- `CloudStorageInfo.__init__`; `none` is its ValueError.
unfoldable pub new_cloud_storage_info :
    String → String → String → String → Option String → Option ArchiveInfo → Option CloudStorageInfo
new_cloud_storage_info cs_bucket cs_hash download_path cs_remote_path version_in_cs archive_info =
    let c : CloudStorageInfo = record {
      cs_bucket = cs_bucket;
      cs_hash = cs_hash;
      download_path = download_path;
      cs_remote_path = cs_remote_path;
      version_in_cs = version_in_cs;
      archive_info = archive_info;
    } in
    if has_storage_data c then some c else none

-- `dependency_dict.get('file_info', {})`
abbrev pub platforms_dict : DependencyDict → Dict PlatformDict
platforms_dict entry = elim entry.file_info [ none ↦ [] | some info ↦ info ]

module _ (H : Host) (backslash : Bool) (base_path : String) where
  -- A path of the config, from the directory of its file.
  abbrev pub resolve : String → String
  resolve p = H.abspath (H.join base_path (format_path backslash p))

  abbrev pub local_entries : List String → List PathEntry
  local_entries [] = []
  local_entries (p ∷ ps) = path (resolve p) ∷ local_entries ps

  unfoldable pub local_info_of : Option (List String) → Option LocalPathInfo
  unfolding format_path parse_local_paths
  local_info_of none = none
  local_info_of (some []) = none
  local_info_of (some (p ∷ ps)) = some (parse_local_paths (local_entries (p ∷ ps)))

  -- The archive of a download; the outer `none` is a ValueError.
  unfoldable pub zip_info_of :
      String → String → String → String → Option String → Option (Option ArchiveInfo)
  unfolding hex_digits
  zip_info_of dependency platform cs_hash download_path none = some none
  zip_info_of dependency platform cs_hash download_path (some path_within_archive) =
      let stem = dependency <> "_" <> platform <> "_" in
      let download_dir = H.dirname download_path in
      elim (new_archive_info H download_path (H.abspath (H.join download_dir (stem <> cs_hash)))
        path_within_archive (H.abspath (H.join download_dir (stem <> hex_digits 40)))) [
          | none ↦ none
          | some a ↦ some (some a)
        ]

  -- What is known of a download; the outer `none` is an exception, also for a missing hash.
  unfoldable pub cs_info_of :
      String → String → DependencyDict → PlatformDict → Option (Option CloudStorageInfo)
  unfolding zip_info_of new_cloud_storage_info format_path
  cs_info_of dependency platform entry p = elim (truthy (lookup "download_path" p.texts)) [
    | none ↦ some none
    | some file ↦
        let download_path = resolve file in
        elim (truthy (lookup "cloud_storage_hash" p.texts)) [
          | none ↦ none
          | some cs_hash ↦
              elim (zip_info_of dependency platform cs_hash download_path
                (truthy (lookup "path_within_archive" p.texts))) [
                  | none ↦ none
                  | some zip_info ↦
                      elim (new_cloud_storage_info
                        (or_empty (lookup "cloud_storage_bucket" entry.texts)) cs_hash download_path
                        (cloud_storage_remote_path dependency cs_hash
                          (lookup "cloud_storage_base_folder" entry.texts))
                        (lookup "version_in_cs" p.texts) zip_info) [
                          | none ↦ none
                          | some c ↦ some (some c)
                        ]
                ]
        ]
  ]

  -- The body of the inner loop.
  unfoldable pub platform_info :
      String → String → DependencyDict → String → PlatformDict → Option DependencyInfo
  unfolding cs_info_of local_info_of
  platform_info config_path dependency entry platform p =
      elim (cs_info_of dependency platform entry p) [
        | none ↦ none
        | some cs_info ↦
            new_dependency_info dependency platform config_path (local_info_of p.local_paths)
              cs_info
      ]

  -- The inner loop: what it yields, and whether it ends without an exception.
  unfoldable pub platform_infos :
      String → String → DependencyDict → Dict PlatformDict → List DependencyInfo × Bool
  platform_infos config_path dependency entry [] = ([], true)
  platform_infos config_path dependency entry ((platform, p) ∷ ps) =
      let (rest, complete) = platform_infos config_path dependency entry ps in
      elim (platform_info config_path dependency entry platform p) [
        | none ↦ ([], false)
        | some i ↦ (i ∷ rest, complete)
      ]

  -- The outer loop.
  unfoldable pub dependency_infos : String → ConfigData → List DependencyInfo × Bool
  unfolding platform_infos
  dependency_infos config_path [] = ([], true)
  dependency_infos config_path ((dependency, entry) ∷ ds) =
      let (infos, fine) = platform_infos config_path dependency entry (platforms_dict entry) in
      let (rest, complete) = dependency_infos config_path ds in
      if fine then (infos ++ rest, complete) else (infos, false)

-- `IterDependencyInfo`; a writable config raises at once.
unfoldable pub iter_dependency_info : Host → Bool → BaseConfig → Config
unfolding dependency_infos
iter_dependency_info H backslash c =
    let (infos, complete) =
      dependency_infos H backslash (H.dirname c.config_path) c.config_path c.config_data in
    if c.writable
    then record { config_type = "BaseConfig"; infos = []; complete = false }
    else record { config_type = "BaseConfig"; infos = infos; complete = complete }
