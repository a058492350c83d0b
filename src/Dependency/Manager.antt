-- ===== src/Dependency/Manager.antt =====
-- `DependencyManager` of dependency_manager/manager.py.
pub mod Lookup
pub mod Fetch
pub mod Prefetch
use car_multimedia_android_a.Base.{
  ℕ, zero, suc, ◌≡◌, refl, Bool, true, false, not, ◌&&◌, ◌||◌, Option, none, some, List, [], ◌∷◌,
  ◌++◌, String, str_eq, is_some, is_empty, contains, if◌then◌else◌,
}
use car_multimedia_android_a.Base.Dict.{Dict, lookup, insert, keys}
use car_multimedia_android_a.Dependency.Remote.{
  Host, Error, value_error, no_path_found, cloud_storage_error, file_not_found, archive_error,
  os_error, Result, ok, err,
}
use car_multimedia_android_a.Dependency.Info.{
  DependencyInfo, Updated, updated, refused, update, get_local_path, get_remote_path,
  get_remote_path_version,
}

-- `_lookup_dict`: the infos by dependency, then by platform.
abbrev pub LookupDict : Type 0
LookupDict = Dict (Dict DependencyInfo)

-- A config: its type, and what IterDependencyInfo yields. `none` is an exception of the generator,
-- raised behind the last info.
pub record Config : Type 0 where
  pub config_type : String
  pub infos : List DependencyInfo
  pub complete : Bool

-- `self._lookup_dict[dependency]`, {} where it is not there yet
abbrev pub platforms_of : LookupDict → String → Dict DependencyInfo
platforms_of d dependency = elim (lookup dependency d) [ none ↦ [] | some ps ↦ ps ]

-- The body of the loop of `_UpdateDependencies`; `none` is a ValueError.
unfoldable pub add_info : LookupDict → DependencyInfo → Option LookupDict
add_info d i =
    let ps = platforms_of d i.dependency in
    elim (lookup i.platform ps) [
      | none ↦ some (insert i.dependency (insert i.platform i ps) d)
      | some old ↦ elim (update old i) [
        | refused _ ↦ none
        | updated new ↦ some (insert i.dependency (insert i.platform new ps) d)
      ]
    ]

unfoldable pub add_infos : LookupDict → List DependencyInfo → Option LookupDict
add_infos d [] = some d
add_infos d (i ∷ is) = elim (add_info d i) [ none ↦ none | some d' ↦ add_infos d' is ]

-- `_UpdateDependencies`
unfoldable pub update_dependencies : List String → LookupDict → Config → Option LookupDict
unfolding add_infos add_info
update_dependencies supported_configs d config =
    if not (is_empty supported_configs) && not (contains config.config_type supported_configs)
    then none
    else elim (add_infos d config.infos) [
      | none ↦ none
      | some d' ↦ if config.complete then some d' else none
    ]

unfoldable pub update_all : List String → LookupDict → List Config → Option LookupDict
update_all supported_configs d [] = some d
update_all supported_configs d (c ∷ cs) = elim (update_dependencies supported_configs d c) [
  | none ↦ none
  | some d' ↦ update_all supported_configs d' cs
]

-- `DependencyManager.__init__`
unfoldable pub new_dependency_manager : List Config → List String → Option LookupDict
unfolding update_all update_dependencies
new_dependency_manager configs supported_config_types = update_all supported_config_types [] configs

-- `_GetDependencyInfo`
unfoldable pub get_dependency_info : LookupDict → String → String → Option DependencyInfo
get_dependency_info d dependency platform = elim (lookup dependency d) [
  | none ↦ none
  | some dependency_dict ↦
      if is_some (lookup platform dependency_dict)
      then lookup platform dependency_dict
      else lookup "default" dependency_dict
]

-- What becomes of one dependency in PrefetchPaths.
pub data Prefetched : Type 0 where
  skipped found missing : Prefetched

-- `skipped_deps`, `found_deps` and `missing_deps`
pub record Lists : Type 0 where
  pub found_deps : List String
  pub skipped_deps : List String
  pub missing_deps : List String

abbrev pub sort_in : Prefetched → String → Lists → Lists
sort_in skipped k l = record l { skipped_deps = l.skipped_deps ++ (k ∷ []) }
sort_in found k l = record l { found_deps = l.found_deps ++ (k ∷ []) }
sort_in missing k l = record l { missing_deps = l.missing_deps ++ (k ∷ []) }

module _ (H : Host) where
  -- The path, if there is one and a file is there.
  abbrev pub existing_path : Option String → H.State → Option String
  existing_path none s = none
  existing_path (some p) s = if not (str_eq p "") && H.path_exists s p then some p else none

  -- The part of FetchPathWithVersion that asks cloud storage.
  unfoldable pub fetch_remote : DependencyInfo → H.State → Result (String × Option String) × H.State
  fetch_remote i s =
      let (result, s') = get_remote_path H i s in
      elim result [
        | err e ↦ (err e, s')
        | ok path ↦ elim (existing_path path s') [
          | none ↦ (err no_path_found, s')
          | some p ↦ (ok (p, get_remote_path_version i), s')
        ]
      ]

  -- `FetchPathWithVersion`
  unfoldable pub fetch_path_with_version :
      LookupDict → String → String → H.State → Result (String × Option String) × H.State
  unfolding fetch_remote
  fetch_path_with_version d dependency platform s =
      elim (get_dependency_info d dependency platform) [
        | none ↦ (err no_path_found, s)
        | some i ↦ elim (existing_path (get_local_path H i s) s) [
          | some p ↦ (ok (p, none), s)
          | none ↦ fetch_remote i s
        ]
      ]

  -- `FetchPath`
  unfoldable pub fetch_path : LookupDict → String → String → H.State → Result String × H.State
  unfolding fetch_path_with_version
  fetch_path d dependency platform s =
      let (result, s') = fetch_path_with_version d dependency platform s in
      (elim result [ ok pv ↦ ok (pv.0) | err e ↦ err e ], s')

  -- `LocalPath`
  unfoldable pub local_path : LookupDict → String → String → H.State → Result String
  local_path d dependency platform s = elim (get_dependency_info d dependency platform) [
    | none ↦ err no_path_found
    | some i ↦ elim (existing_path (get_local_path H i s) s) [
      | none ↦ err no_path_found
      | some p ↦ ok p
    ]
  ]

  -- The loop over `range(0, cloud_storage_retries + 1)` of PrefetchPaths, on the rounds left.
  unfoldable pub fetch_with_retries :
      ℕ → DependencyInfo → H.State → Result (Option String) × H.State
  fetch_with_retries zero i s = (ok none, s)
  fetch_with_retries (suc rounds) i s =
      let (result, s') = get_remote_path H i s in
      let again = fetch_with_retries rounds i s' in
      elim result [
        | ok path ↦ (ok path, s')
        | err e ↦ elim e [
          | cloud_storage_error ↦ again
          | value_error ↦ (err value_error, s')
          | archive_error ↦ (err archive_error, s')
          | file_not_found ↦ (err file_not_found, s')
          | no_path_found ↦ (err no_path_found, s')
          | os_error ↦ (err os_error, s')
        ]
      ]

  unfoldable pub prefetch_one :
      LookupDict → String → ℕ → String → H.State → Result Prefetched × H.State
  unfolding fetch_with_retries
  prefetch_one d platform retries dependency s = elim (get_dependency_info d dependency platform) [
    | none ↦ (ok skipped, s)
    | some i ↦ elim (get_local_path H i s) [
      | some _ ↦ (ok found, s)
      | none ↦
          let (result, s') = fetch_with_retries (suc retries) i s in
          (
            elim result [
              | err e ↦ err e
              | ok path ↦ elim path [ none ↦ ok missing | some _ ↦ ok found ]
            ],
            s',
          )
    ]
  ]

  unfoldable pub prefetch_loop :
      LookupDict → String → ℕ → List String → Lists → H.State → Result Lists × H.State
  prefetch_loop d platform retries [] l s = (ok l, s)
  prefetch_loop d platform retries (k ∷ ks) l s =
      let (result, s') = prefetch_one d platform retries k s in
      elim result [
        | err e ↦ (err e, s')
        | ok r ↦ prefetch_loop d platform retries ks (sort_in r k l) s'
      ]

  -- `PrefetchPaths`
  unfoldable pub prefetch_paths :
      LookupDict → String → List String → ℕ → H.State → Result (List String × List String) × H.State
  unfolding prefetch_loop prefetch_one
  prefetch_paths d platform dependencies retries s =
      let ks = if is_empty dependencies then keys d else dependencies in
      let none_yet : Lists = record { found_deps = []; skipped_deps = []; missing_deps = [] } in
      let (result, s') = prefetch_loop d platform retries ks none_yet s in
      (
        elim result [
          | err e ↦ err e
          | ok l ↦
              if is_empty l.missing_deps
              then ok (l.found_deps, l.skipped_deps)
              else err no_path_found
        ],
        s',
      )
