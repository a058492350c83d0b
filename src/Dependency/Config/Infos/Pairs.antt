-- ===== src/Dependency/Config/Infos/Pairs.antt =====
-- A config yields one info for each dependency and platform.
use car_multimedia_android_a.Base.{
  ◌≡◌, refl, ap, sym, subst, ◌∙◌, All, All-append, Bool, true, false, some, List, [], ◌∷◌, ◌++◌,
  String, arith, Option-cases, inl, inr, Bool-cases,
}
use mathlib.Core.Path.{ap₂}
use car_multimedia_android_a.Base.Dict.{Dict}
use car_multimedia_android_a.Dependency.Config.Data.{PlatformDict, DependencyDict, ConfigData}
use car_multimedia_android_a.Dependency.Config.Platform.{BaseConfig}
use car_multimedia_android_a.Dependency.Remote.{Host}
use car_multimedia_android_a.Dependency.Info.{DependencyInfo, new_dependency_info}
use car_multimedia_android_a.Dependency.Config.Infos.{
  platform_info, platform_infos, platforms_dict, dependency_infos, iter_dependency_info,
}

abbrev pub Pair : Type 0
Pair = String × String

-- The pairs that the json data names, in its order.
abbrev pub platform_pairs : String → Dict PlatformDict → List Pair
platform_pairs dependency [] = []
platform_pairs dependency ((platform, p) ∷ ps) =
    (dependency, platform) ∷ platform_pairs dependency ps

abbrev pub pairs : ConfigData → List Pair
pairs [] = []
pairs ((dependency, entry) ∷ ds) = platform_pairs dependency (platforms_dict entry) ++ pairs ds

abbrev pub pairs_of : List DependencyInfo → List Pair
pairs_of [] = []
pairs_of (i ∷ is) = (i.dependency, i.platform) ∷ pairs_of is

pairs_of-append : (xs ys : List DependencyInfo) → pairs_of (xs ++ ys) ≡ pairs_of xs ++ pairs_of ys
pairs_of-append [] ys = refl
pairs_of-append (i ∷ xs) ys = ap (λ r. (i.dependency, i.platform) ∷ r) (pairs_of-append xs ys)

-- The info names the file of the config.
abbrev pub IsFrom : String → DependencyInfo → Type 0
IsFrom config_path i = i.config_paths ≡ config_path ∷ []

module _ (H : Host) (backslash : Bool) (base config_path : String) where
  platform_info-some :
      (dependency : String) (entry : DependencyDict) (platform : String) (p : PlatformDict)
      {i : DependencyInfo}
      → platform_info H backslash base config_path dependency entry platform p ≡ some i
      → (◌≡◌ {A = Pair} (i.dependency, i.platform) (dependency, platform)) × IsFrom config_path i
  unfolding platform_info new_dependency_info
  platform_info-some dependency entry platform p e = ground arith

  platform_infos-cons :
      (dependency : String) (entry : DependencyDict) (platform : String) (p : PlatformDict)
      (ps : Dict PlatformDict)
      → (platform_infos H backslash base config_path dependency entry ((platform, p) ∷ ps)).1 ≡ true
      → let rest = platform_infos H backslash base config_path dependency entry ps in
        (i : DependencyInfo) × (platform_info H backslash base config_path dependency entry platform
            p
          ≡ some i)
        × (rest.1 ≡ true)
        × ((platform_infos H backslash base config_path dependency entry ((platform, p) ∷ ps)).0
            ≡ i ∷ rest.0)
  unfolding platform_infos
  platform_infos-cons dependency entry platform p ps e =
      elim (Option-cases (platform_info H backslash base config_path dependency entry platform p)) [
        | inl n ↦ absurd (ground arith)
        | inr (i, s) ↦ (i, s, ground arith, ground arith)
      ]

  -- What a loop has yielded, in full.
  abbrev Yields : List Pair → List DependencyInfo → Type 0
  Yields ps is = (pairs_of is ≡ ps) × All (IsFrom config_path) is

  platform_infos-Yields :
      (dependency : String) (entry : DependencyDict) (ps : Dict PlatformDict)
      → (platform_infos H backslash base config_path dependency entry ps).1 ≡ true
      → Yields
          (platform_pairs dependency ps)
          (platform_infos H backslash base config_path dependency entry ps).0
  platform_infos-Yields dependency entry [] e = unfold platform_infos in (refl, tt)
  platform_infos-Yields dependency entry ((platform, p) ∷ ps) e =
      let (i, found, fine, same) = platform_infos-cons dependency entry platform p ps e in
      let (pair, from) = platform_info-some dependency entry platform p found in
      let (named, all) = platform_infos-Yields dependency entry ps fine in
      subst (Yields (platform_pairs dependency ((platform, p) ∷ ps))) (sym same)
        (ap₂ (λ x xs. x ∷ xs) pair named, (from, all))

  dependency_infos-cons :
      (dependency : String) (entry : DependencyDict) (ds : ConfigData)
      → (dependency_infos H backslash base config_path ((dependency, entry) ∷ ds)).1 ≡ true
      → let first =
          platform_infos H backslash base config_path dependency entry (platforms_dict entry) in
        let rest = dependency_infos H backslash base config_path ds in
        (first.1 ≡ true)
        × (rest.1 ≡ true)
        × ((dependency_infos H backslash base config_path ((dependency, entry) ∷ ds)).0
            ≡ first.0 ++ rest.0)
  unfolding dependency_infos
  dependency_infos-cons dependency entry ds e = ground arith

  dependency_infos-Yields :
      (d : ConfigData)
      → (dependency_infos H backslash base config_path d).1 ≡ true
      → Yields (pairs d) (dependency_infos H backslash base config_path d).0
  dependency_infos-Yields [] e = unfold dependency_infos in (refl, tt)
  dependency_infos-Yields ((dependency, entry) ∷ ds) e =
      let (first, rest, same) = dependency_infos-cons dependency entry ds e in
      let (named, all) = platform_infos-Yields dependency entry (platforms_dict entry) first in
      let (named', all') = dependency_infos-Yields ds rest in
      subst (Yields (pairs ((dependency, entry) ∷ ds))) (sym same) (
        pairs_of-append _ _ ∙ ap₂ (λ xs ys. xs ++ ys) named named',
        All-append (IsFrom config_path) _ _ all all',
      )

-- If IterDependencyInfo of a config ends without an exception, then it has yielded one info for
-- each platform of each dependency in the json data, in its order, and every info names the file
-- of the config. A writable config never gets so far.
pub iter_dependency_info-pairs :
    (H : Host) (backslash : Bool) (c : BaseConfig)
    → (iter_dependency_info H backslash c).complete ≡ true
    → (c.writable ≡ false)
      × (pairs_of (iter_dependency_info H backslash c).infos ≡ pairs c.config_data)
      × All (IsFrom c.config_path) (iter_dependency_info H backslash c).infos
unfolding iter_dependency_info
iter_dependency_info-pairs H backslash c e = elim (Bool-cases c.writable) [
  | inl w ↦ absurd (ground arith)
  | inr r ↦
      let all =
        dependency_infos H backslash (H.dirname c.config_path) c.config_path c.config_data in
      let (named, from) =
        dependency_infos-Yields H backslash (H.dirname c.config_path) c.config_path c.config_data
          (ground arith) in
      let same : (iter_dependency_info H backslash c).infos ≡ all.0 = ground arith in
      (r, ap pairs_of same ∙ named, subst (All (IsFrom c.config_path)) (sym same) from)
]
