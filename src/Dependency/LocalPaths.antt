-- ===== src/Dependency/LocalPaths.antt =====
-- `LocalPathInfo` of dependency_manager/local_path_info.py. The file system is two functions:
-- which paths exist, and when each was last modified.
pub mod Laws
use car_multimedia_android_a.Base.{
  ℕ, Bool, true, false, not, ◌&&◌, ◌||◌, Option, none, some, List, [], ◌∷◌, ◌++◌, String, is_empty,
  contains, any, ltb, if◌then◌else◌,
}

-- `_path_priority_groups`
abbrev pub LocalPathInfo : Type 0
LocalPathInfo = List (List String)

-- An item of the configured list: a path, or a group of paths.
pub data PathEntry : Type 0 where
  path : String → PathEntry
  group : List String → PathEntry

-- `_ParseLocalPaths`
unfoldable pub parse_local_paths : List PathEntry → LocalPathInfo
parse_local_paths [] = []
parse_local_paths (path e ∷ es) = (e ∷ []) ∷ parse_local_paths es
parse_local_paths (group g ∷ es) = g ∷ parse_local_paths es

-- `IsPathInLocalPaths`
unfoldable pub is_path_in_local_paths : LocalPathInfo → String → Bool
is_path_in_local_paths groups p = any (contains p) groups

module _ (exists : String → Bool) (mtime : String → ℕ) where
  -- `filter(os.path.exists, priority_group)`
  unfoldable pub existing : List String → List String
  existing [] = []
  existing (p ∷ ps) = let rest = existing ps in if exists p then p ∷ rest else rest

  -- `max(paths, key=mtime)` behind its first item: the first of the greatest.
  unfoldable pub latest : String → List String → String
  latest best [] = best
  latest best (p ∷ ps) = latest (if ltb (mtime best) (mtime p) then p else best) ps

  unfoldable pub pick : List String → Option String
  pick [] = none
  pick (p ∷ ps) = some (latest p ps)

  -- `GetLocalPath`
  unfoldable pub get_local_path : LocalPathInfo → Option String
  unfolding existing latest pick
  get_local_path [] = none
  get_local_path (g ∷ groups) =
      let rest = get_local_path groups in elim (pick (existing g)) [ none ↦ rest | some p ↦ some p ]

-- The paths of a group that no group of `groups` lists.
unfoldable pub new_paths : LocalPathInfo → List String → List String
new_paths groups [] = []
new_paths groups (p ∷ ps) =
    let rest = new_paths groups ps in if is_path_in_local_paths groups p then rest else p ∷ rest

-- `if group_list: self._path_priority_groups.append(group_list)`
unfoldable pub extend : LocalPathInfo → List String → LocalPathInfo
extend groups [] = groups
extend groups (p ∷ ps) = groups ++ ((p ∷ ps) ∷ [])

-- The loop of `Update` over the other groups.
unfoldable pub update_groups : LocalPathInfo → LocalPathInfo → LocalPathInfo
unfolding new_paths is_path_in_local_paths extend
update_groups groups [] = groups
update_groups groups (g ∷ others) = update_groups (extend groups (new_paths groups g)) others

-- `Update`, where None adds nothing.
unfoldable pub update : LocalPathInfo → Option LocalPathInfo → LocalPathInfo
unfolding update_groups
update groups none = groups
update groups (some others) = update_groups groups others
