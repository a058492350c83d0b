-- ===== src/Dependency/Manager/Lookup/Found.antt =====
-- What _GetDependencyInfo finds for a dependency and a platform.
use car_multimedia_android_a.Base.{
  ◌≡◌, refl, ap, sym, subst, ◌∙◌, Bool, true, false, ◌||◌, is_some, Option, none, some, List, [],
  ◌++◌, append_assoc, append-nil, String, if◌then◌else◌, arith,
}
use car_multimedia_android_a.Base.Dict.{lookup}
use car_multimedia_android_a.Dependency.LocalPaths.Laws.{or_else, or_else_assoc, or_else-none}
use car_multimedia_android_a.Dependency.Remote.{Host, CloudStorageInfo}
use car_multimedia_android_a.Dependency.Info.{DependencyInfo, get_local_path}
use car_multimedia_android_a.Dependency.Manager.{
  LookupDict, Config, add_infos, new_dependency_manager, get_dependency_info,
}
use car_multimedia_android_a.Dependency.Manager.Lookup.{
  at, seen, joined, seen-add_infos, updated-fields, get_local_path-updated, all_infos,
  update_all-infos,
}

-- The first local path that one of the infos for `k` and `p` finds, in their order.
abbrev pub first_local_path :
    (H : Host) → H.State → String → String → List DependencyInfo → Option String
first_local_path H s = joined none (λ i. get_local_path H i s) or_else

-- The local path that a looked-up info finds.
abbrev pub path_found : (H : Host) → H.State → Option DependencyInfo → Option String
path_found H s = seen none (λ i. get_local_path H i s)

-- The config paths of the infos for `k` and `p`, in their order.
abbrev pub all_config_paths : String → String → List DependencyInfo → List String
all_config_paths = joined [] (λ i. i.config_paths) (λ xs ys. xs ++ ys)

abbrev pub config_paths_found : Option DependencyInfo → List String
config_paths_found = seen [] (λ i. i.config_paths)

-- What cloud storage has for `k` and `p`: what the first info that says so names.
abbrev pub first_storage : String → String → List DependencyInfo → Option CloudStorageInfo
first_storage = joined none (λ i. i.cloud_storage_info) or_else

abbrev pub storage_found : Option DependencyInfo → Option CloudStorageInfo
storage_found = seen none (λ i. i.cloud_storage_info)

-- Whether one of the infos is for `k` and `p`.
abbrev pub is_configured : String → String → List DependencyInfo → Bool
is_configured = joined false (λ i. true) (λ a b. a || b)

-- The platform whose infos count: the own one, or else 'default'.
abbrev pub platform_used : String → String → List DependencyInfo → String
platform_used k p is = if is_configured k p is then p else "default"

or_false : (b : Bool) → (b || false) ≡ b
or_false true = refl
or_false false = refl

or_assoc : (a b c : Bool) → ((a || b) || c) ≡ (a || (b || c))
or_assoc true b c = refl
or_assoc false b c = refl

is_some-seen : (o : Option DependencyInfo) → seen false (λ i. true) o ≡ is_some o
is_some-seen none = refl
is_some-seen (some i) = refl

get_dependency_info-at :
    (d : LookupDict) (k p : String)
    → get_dependency_info d k p ≡ at d k (if is_some (at d k p) then p else "default")
unfolding get_dependency_info lookup
get_dependency_info-at d k p = ground arith

-- What is found in the dict of a manager that is made of some configs
abbrev At :
    Host → LookupDict → List DependencyInfo → String → String → Option DependencyInfo → Type 0
At H d infos k p o =
    ((s : H.State) → path_found H s o ≡ first_local_path H s k p infos)
    × (config_paths_found o ≡ all_config_paths k p infos)
    × (storage_found o ≡ first_storage k p infos)

lookup_at :
    (H : Host) (d : LookupDict) (infos : List DependencyInfo)
    → add_infos [] infos ≡ some d
    → (k p : String) → At H d infos k p (at d k p)
unfolding lookup
lookup_at H d infos made k p = (
  λ s.
      seen-add_infos none (λ i. get_local_path H i s) or_else or_else-none (λ a. refl) or_else_assoc
        (get_local_path-updated H s) [] d infos k p made,
  seen-add_infos [] (λ i. i.config_paths) (λ xs ys. xs ++ ys) append-nil (λ a. refl) append_assoc
      (λ old i new e. (updated-fields old i new e).0) [] d infos k p made,
  seen-add_infos none (λ i. i.cloud_storage_info) or_else or_else-none (λ a. refl) or_else_assoc
      (λ old i new e. (updated-fields old i new e).2) [] d infos k p made,
)

is_some-at :
    (d : LookupDict) (infos : List DependencyInfo)
    → add_infos [] infos ≡ some d
    → (k p : String) → is_some (at d k p) ≡ is_configured k p infos
unfolding lookup
is_some-at d infos made k p =
    sym (is_some-seen (at d k p))
    ∙ seen-add_infos false (λ i. true) (λ a b. a || b) or_false (λ a. refl) or_assoc
        (λ old i new e. refl) [] d infos k p made

-- If a manager can be made of some configs, then what _GetDependencyInfo gives for a dependency and
-- a platform is what the configs say, in their order, of the two, or of the dependency and the
-- platform 'default' where no config has an info for the two: its local path is that of the first
-- info that finds a file, its config paths are those of all the infos, and its cloud storage is
-- that of the first info that has any.
pub get_dependency_info-new_dependency_manager :
    (H : Host) (configs : List Config) (supported : List String) {d : LookupDict}
    → new_dependency_manager configs supported ≡ some d
    → (k p : String)
    → let infos = all_infos configs in
      let q = platform_used k p infos in
      let found = get_dependency_info d k p in
      ((s : H.State) → path_found H s found ≡ first_local_path H s k q infos)
      × (config_paths_found found ≡ all_config_paths k q infos)
      × (storage_found found ≡ first_storage k q infos)
unfolding new_dependency_manager
get_dependency_info-new_dependency_manager H configs supported {d} made k p =
    let infos = all_infos configs in
    let all = update_all-infos supported configs [] d made in
    let same =
      get_dependency_info-at d k p
      ∙ ap (λ b. at d k (if b then p else "default")) (is_some-at d infos all k p) in
    let q = platform_used k p infos in
    subst (At H d infos k q) (sym same) (lookup_at H d infos all k q)
