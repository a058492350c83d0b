-- ===== src/Dependency/Info.antt =====
-- `DependencyInfo` of dependency_manager/dependency_info.py.
use car_multimedia_android_a.Base.{
  not, ◌&&◌, ◌||◌, Option, none, some, List, [], ◌∷◌, ◌++◌, String, str_eq, is_some, if◌then◌else◌,
}
use car_multimedia_android_a.Dependency.LocalPaths.{LocalPathInfo}
use car_multimedia_android_a.Dependency.LocalPaths
use car_multimedia_android_a.Dependency.Remote.{CloudStorageInfo, Host}
use car_multimedia_android_a.Dependency.Remote

pub record DependencyInfo : Type 0 where
  pub dependency : String
  pub platform : String
  pub config_paths : List String
  pub local_path_info : Option LocalPathInfo
  pub cloud_storage_info : Option CloudStorageInfo

-- `DependencyInfo.__init__`; `none` is its ValueError.
unfoldable pub new_dependency_info :
    String
    → String
    → String
    → Option LocalPathInfo
    → Option CloudStorageInfo
    → Option DependencyInfo
new_dependency_info dependency platform config_path local_path_info cloud_storage_info =
    if str_eq dependency "" || str_eq platform ""
    then none
    else some (record {
      dependency = dependency;
      platform = platform;
      config_paths = config_path ∷ [];
      local_path_info = local_path_info;
      cloud_storage_info = cloud_storage_info;
    })

-- The two ValueErrors of `Update`.
pub data Conflict : Type 0 where
  other_dependency two_cloud_storages : Conflict

pub data Updated : Type 0 where
  updated : DependencyInfo → Updated
  refused : Conflict → Updated

-- The last statement of `Update`.
abbrev pub merge_local : Option LocalPathInfo → Option LocalPathInfo → Option LocalPathInfo
merge_local none new = new
merge_local (some groups) new = some (LocalPaths.update groups new)

-- `Update`. A refused update leaves the config paths extended; the manager drops the object then.
unfoldable pub update : DependencyInfo → DependencyInfo → Updated
update i new =
    if not (str_eq i.dependency new.dependency && str_eq i.platform new.platform)
    then refused other_dependency
    else if is_some new.cloud_storage_info && is_some i.cloud_storage_info
    then refused two_cloud_storages
    else updated (record i {
      config_paths = i.config_paths ++ new.config_paths;
      local_path_info = merge_local i.local_path_info new.local_path_info;
      cloud_storage_info =
          if is_some new.cloud_storage_info then new.cloud_storage_info else i.cloud_storage_info;
    })

module _ (H : Host) where
  -- `LocalPathInfo.GetLocalPath`, or None where there is no such info
  abbrev pub local_path_of : Option LocalPathInfo → H.State → Option String
  local_path_of none s = none
  local_path_of (some groups) s = LocalPaths.get_local_path (H.path_exists s) (H.mtime s) groups

  -- `GetLocalPath`
  unfoldable pub get_local_path : DependencyInfo → H.State → Option String
  get_local_path i = local_path_of i.local_path_info

  abbrev pub remote_path_of :
      Option CloudStorageInfo → H.State → Remote.Result (Option String) × H.State
  remote_path_of none s = (Remote.ok none, s)
  remote_path_of (some c) s = Remote.get_remote_path H c s

  -- `GetRemotePath`
  unfoldable pub get_remote_path :
      DependencyInfo → H.State → Remote.Result (Option String) × H.State
  get_remote_path i = remote_path_of i.cloud_storage_info

-- `GetRemotePathVersion`
unfoldable pub get_remote_path_version : DependencyInfo → Option String
get_remote_path_version i = elim i.cloud_storage_info [ none ↦ none | some c ↦ c.version_in_cs ]
