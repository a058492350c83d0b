-- ===== src/Dependency/Config/Data.antt =====
-- The json data of a config, and Python's equality of such dicts, which ignores their order.
use car_multimedia_android_a.Base.{
  ◌≡◌, refl, Bool, true, false, ◌&&◌, Option, none, some, List, [], ◌∷◌, String, str_eq, is_empty,
  eq_refl,
}
use car_multimedia_android_a.Base.Dict.{Dict, lookup, keys}

-- The entry of a platform under 'file_info': its text fields, and 'local_paths'.
pub record PlatformDict : Type 0 where
  pub texts : Dict String
  pub local_paths : Option (List String)

-- The entry of a dependency: its text fields, and 'file_info'.
pub record DependencyDict : Type 0 where
  pub texts : Dict String
  pub file_info : Option (Dict PlatformDict)

-- What stands under 'dependencies'.
abbrev pub ConfigData : Type 0
ConfigData = Dict DependencyDict

-- Whether such a dict is empty, which makes it false.
abbrev pub is_empty_platform : PlatformDict → Bool
is_empty_platform p = is_empty p.texts && (elim p.local_paths [ none ↦ true | some _ ↦ false ])

abbrev pub is_empty_dependency : DependencyDict → Bool
is_empty_dependency d = is_empty d.texts && (elim d.file_info [ none ↦ true | some _ ↦ false ])

module _ {ℓ} {V : Type ℓ} (eqv : V → V → Bool) where
  abbrev pub option_eq : Option V → Option V → Bool
  option_eq none none = true
  option_eq none (some b) = false
  option_eq (some a) none = false
  option_eq (some a) (some b) = eqv a b

  abbrev pub list_eq : List V → List V → Bool
  list_eq [] [] = true
  list_eq [] (y ∷ ys) = false
  list_eq (x ∷ xs) [] = false
  list_eq (x ∷ xs) (y ∷ ys) = eqv x y && list_eq xs ys

  abbrev pub agree_on : List String → Dict V → Dict V → Bool
  agree_on [] d e = true
  agree_on (k ∷ ks) d e = option_eq (lookup k d) (lookup k e) && agree_on ks d e

  -- `d == e` for dicts
  unfoldable pub dict_eq : Dict V → Dict V → Bool
  dict_eq d e = agree_on (keys d) d e && agree_on (keys e) d e

  pub dict_eq_refl : ((v : V) → eqv v v ≡ true) → (d : Dict V) → dict_eq d d ≡ true
  unfolding dict_eq
  dict_eq_refl h d = rw (agree (keys d))
    where
      same : (o : Option V) → option_eq o o ≡ true
      same none = refl
      same (some v) = h v

      agree : (ks : List String) → agree_on ks d d ≡ true
      agree [] = refl
      agree (k ∷ ks) = rw (same (lookup k d)) (agree ks)

unfoldable pub platform_eq : PlatformDict → PlatformDict → Bool
platform_eq p q =
    dict_eq str_eq p.texts q.texts && option_eq (list_eq str_eq) p.local_paths q.local_paths

unfoldable pub dependency_eq : DependencyDict → DependencyDict → Bool
dependency_eq d e =
    dict_eq str_eq d.texts e.texts && option_eq (dict_eq platform_eq) d.file_info e.file_info

unfoldable pub data_eq : ConfigData → ConfigData → Bool
data_eq = dict_eq dependency_eq

option_eq_refl {ℓ} :
    {V : Type ℓ} (eqv : V → V → Bool)
    → ((v : V) → eqv v v ≡ true)
    → (o : Option V) → option_eq eqv o o ≡ true
option_eq_refl eqv h none = refl
option_eq_refl eqv h (some v) = h v

list_eq_refl : (xs : List String) → list_eq str_eq xs xs ≡ true
list_eq_refl [] = refl
list_eq_refl (x ∷ xs) = rw eq_refl (list_eq_refl xs)

platform_eq_refl : (p : PlatformDict) → platform_eq p p ≡ true
unfolding platform_eq
platform_eq_refl p = rw (
  dict_eq_refl str_eq eq_refl p.texts,
  option_eq_refl (list_eq str_eq) list_eq_refl p.local_paths,
)

dependency_eq_refl : (d : DependencyDict) → dependency_eq d d ≡ true
unfolding dependency_eq
dependency_eq_refl d = rw (
  dict_eq_refl str_eq eq_refl d.texts,
  option_eq_refl (dict_eq platform_eq) (dict_eq_refl platform_eq platform_eq_refl) d.file_info,
)

pub data_eq_refl : (d : ConfigData) → data_eq d d ≡ true
unfolding data_eq
data_eq_refl = dict_eq_refl dependency_eq dependency_eq_refl
