-- ===== src/Dependency/Config/Platform.antt =====
-- `_GetPlatformData`, `_SetPlatformData`, `GetVersion` and the validations of a BaseConfig.
use car_multimedia_android_a.Base.{
  ◌≡◌, refl, ap, ◌∙◌, Bool, true, false, ◌&&◌, ◌||◌, Option, none, some, List, [], ◌∷◌, String,
  str_eq, is_empty, if◌then◌else◌, eq_iff, arith, inl, inr, Bool-cases,
}
use car_multimedia_android_a.Base.Dict.{Dict, lookup, insert, lookup-insert}
use car_multimedia_android_a.Dependency.Uploader.{Uploader, Outcome}
use car_multimedia_android_a.Dependency.Config.Data.{
  PlatformDict, DependencyDict, ConfigData, is_empty_platform, is_empty_dependency,
}

-- `_pending_uploads` holds the jobs in the order in which they were added.
pub record BaseConfig : Type 0 where
  pub config_path : String
  pub writable : Bool
  pub config_data : ConfigData
  pub pending_uploads : List Uploader

-- The exceptions, by class and, for the last three, by where they come from.
pub data Error : Type 0 where
  read_write value_error write_failed rollback_failed : Error
  upload_failed : Outcome → Error

pub data Result {ℓ} (A : Type ℓ) : Type ℓ where
  err : Error → Result A
  ok : A → Result A

-- An `assert` or `if` statement that raises `e` unless the test holds.
abbrev pub guard : Bool → Error → Result (Unit {0})
guard test e = elim test [ false ↦ err e | true ↦ ok tt ]

infixl 5 ◌>>=◌ ◌>>◌
abbrev pub ◌>>=◌ {ℓ κ} : {A : Type ℓ} {B : Type κ} → Result A → (A → Result B) → Result B
r >>= next = elim r [ err e ↦ err e | ok value ↦ next value ]

abbrev pub ◌>>◌ {ℓ} : {B : Type ℓ} → Result (Unit {0}) → Result B → Result B
first >> rest = elim first [ err e ↦ err e | ok _ ↦ rest ]

-- The fields that a dependency has once for all platforms.
abbrev pub is_shared : String → Bool
is_shared key = str_eq key "cloud_storage_bucket" || str_eq key "cloud_storage_base_folder"

-- `d.get(dependency, {})`
abbrev pub dependency_of : ConfigData → String → DependencyDict
dependency_of d dependency = elim (lookup dependency d) [
  | none ↦ record { texts = []; file_info = none }
  | some e ↦ e
]

-- `dependency_dict.get('file_info', {}).get(platform)`
abbrev pub platform_of : DependencyDict → String → Option PlatformDict
platform_of d platform = elim d.file_info [ none ↦ none | some info ↦ lookup platform info ]

-- The platform's dict; a missing or an empty one is a ValueError.
abbrev pub checked : Option PlatformDict → Result PlatformDict
checked none = err value_error
checked (some p) = if is_empty_platform p then err value_error else ok p

-- `_GetPlatformData` with no data type
unfoldable pub get_platform : ConfigData → String → String → Result PlatformDict
get_platform d dependency platform =
    let entry = dependency_of d dependency in
    if is_empty_dependency entry then err value_error else checked (platform_of entry platform)

-- `_GetPlatformData` with a data type
unfoldable pub get_platform_data : ConfigData → String → String → String → Result (Option String)
unfolding get_platform
get_platform_data d dependency platform key = do
  p ← get_platform d dependency platform
  ok (if is_shared key then lookup key (dependency_of d dependency).texts else lookup key p.texts)

unfoldable pub get_version : ConfigData → String → String → Result (Option String)
unfolding get_platform_data
get_version d dependency platform = get_platform_data d dependency platform "version_in_cs"

abbrev pub info_of : Option (Dict PlatformDict) → Dict PlatformDict
info_of none = []
info_of (some info) = info

-- The two assignments of `_SetPlatformData`, on the dict of the dependency.
unfoldable pub set_field : DependencyDict → String → String → String → PlatformDict → DependencyDict
set_field entry platform key value p =
    if is_shared key then record entry { texts = insert key value entry.texts } else record entry {
      file_info = some (
          insert platform (record p { texts = insert key value p.texts })
            (info_of entry.file_info));
    }

-- `_SetPlatformData`
unfoldable pub set_platform_data :
    BaseConfig → String → String → String → String → Result BaseConfig
set_platform_data c dependency platform key value = do
  guard c.writable read_write
  let entry = dependency_of c.config_data dependency
  p ← checked (platform_of entry platform)
  ok (record c {
    config_data = insert dependency (set_field entry platform key value p) c.config_data;
  })

-- What a successful read returns once `value` was written.
abbrev pub overwrite : String → Result (Option String) → Result (Option String)
overwrite value (ok _) = ok (some value)
overwrite value (err e) = err e

-- Whether the field that is read is the one that was written.
abbrev pub same_field : String → String → String → String → String → String → Bool
same_field dep plat key dep' plat' key' =
    str_eq dep dep' && str_eq key key' && (is_shared key || str_eq plat plat')

is_empty-insert {ℓ} :
    {V : Type ℓ} (k : String) (v : V) (d : Dict V) → is_empty (insert k v d) ≡ false
unfolding insert
is_empty-insert k v [] = refl
is_empty-insert k v ((j, w) ∷ d) = ground arith

-- `_GetPlatformData` from the dict of the dependency.
abbrev get_in : DependencyDict → String → String → Result (Option String)
get_in entry plat key = if is_empty_dependency entry then err value_error else (do
  p ← checked (platform_of entry plat)
  ok (if is_shared key then lookup key entry.texts else lookup key p.texts))

get_in-set_field_shared :
    (entry : DependencyDict) (plat key value : String) (p : PlatformDict) (plat' key' : String)
    → is_shared key ≡ true
    → platform_of entry plat ≡ some p
    → get_in (set_field entry plat key value p) plat' key' ≡ (
        if str_eq key key'
        then overwrite value (get_in entry plat' key')
        else get_in entry plat' key')
unfolding set_field
get_in-set_field_shared entry plat key value p plat' key' shared e = ground (
  arith,
  eq_iff key key',
  is_empty-insert key value entry.texts,
  lookup-insert key key' value entry.texts,
)

get_in-set_field_own :
    (entry : DependencyDict) (plat key value : String) (p : PlatformDict) (plat' key' : String)
    → is_shared key ≡ false
    → platform_of entry plat ≡ some p
    → is_empty_platform p ≡ false
    → get_in (set_field entry plat key value p) plat' key' ≡ (
        if str_eq key key' && str_eq plat plat'
        then overwrite value (get_in entry plat' key')
        else get_in entry plat' key')
unfolding set_field
get_in-set_field_own entry plat key value p plat' key' own e ne = ground (
  arith,
  eq_iff key key',
  eq_iff plat plat',
  is_empty-insert key value p.texts,
  lookup-insert key key' value p.texts,
  lookup-insert plat plat' (record p { texts = insert key value p.texts })
      (info_of entry.file_info),
)

-- What a successful write has found, and done.
pub set_platform_data-ok :
    (c c' : BaseConfig) (dep plat key value : String)
    → set_platform_data c dep plat key value ≡ ok c'
    → (p : PlatformDict) × (platform_of (dependency_of c.config_data dep) plat ≡ some p)
      × (is_empty_platform p ≡ false)
      × (c' ≡ record c {
        config_data =
            insert dep (set_field (dependency_of c.config_data dep) plat key value p) c.config_data;
      })
unfolding set_platform_data
set_platform_data-ok c c' dep plat key value h = ground arith

dependency_of-insert :
    (dep dep' : String) (e : DependencyDict) (d : ConfigData)
    → dependency_of (insert dep e d) dep' ≡ (if str_eq dep dep' then e else dependency_of d dep')
dependency_of-insert dep dep' e d = ground (arith, lookup-insert dep dep' e d)

get_platform_data-eq-get_in :
    (d : ConfigData) (dep plat key : String)
    → get_platform_data d dep plat key ≡ get_in (dependency_of d dep) plat key
unfolding get_platform_data
get_platform_data-eq-get_in d dep plat key = ground arith

get_in-set_field :
    (entry : DependencyDict) (plat key value : String) (p : PlatformDict) (plat' key' : String)
    → platform_of entry plat ≡ some p
    → is_empty_platform p ≡ false
    → get_in (set_field entry plat key value p) plat' key' ≡ (
        if str_eq key key' && (is_shared key || str_eq plat plat')
        then overwrite value (get_in entry plat' key')
        else get_in entry plat' key')
get_in-set_field entry plat key value p plat' key' e ne = elim (Bool-cases (is_shared key)) [
  | inl shared ↦ ground (arith, get_in-set_field_shared entry plat key value p plat' key' shared e)
  | inr own ↦ ground (arith, get_in-set_field_own entry plat key value p plat' key' own e ne)
]

-- After _SetPlatformData a read of the same field gives the value that was written, also for the
-- other platforms if the field is one of the dependency's; every other read gives what it gave
-- before, an exception included.
pub get_platform_data-set_platform_data :
    (c c' : BaseConfig) (dep plat key value dep' plat' key' : String)
    → set_platform_data c dep plat key value ≡ ok c'
    → get_platform_data c'.config_data dep' plat' key' ≡ (
        if same_field dep plat key dep' plat' key'
        then overwrite value (get_platform_data c.config_data dep' plat' key')
        else get_platform_data c.config_data dep' plat' key')
get_platform_data-set_platform_data c c' dep plat key value dep' plat' key' h =
    let (p, found, ne, e) = set_platform_data-ok c c' dep plat key value h in
    let d = c.config_data in
    let entry = dependency_of d dep in
    let entry' = set_field entry plat key value p in
    ap (λ x. get_platform_data x.config_data dep' plat' key') e
    ∙ get_platform_data-eq-get_in (insert dep entry' d) dep' plat' key'
    ∙ ap (λ x. get_in x plat' key') (dependency_of-insert dep dep' entry' d)
    ∙ rw (get_platform_data-eq-get_in d dep' plat' key') (elim (Bool-cases (str_eq dep dep')) [
      | inl same ↦ rw same (
          get_in-set_field entry plat key value p plat' key' found ne
          ∙ ap
              (λ x.
                if str_eq key key' && (is_shared key || str_eq plat plat')
                then overwrite value (get_in x plat' key')
                else get_in x plat' key')
              (ap (dependency_of d) ((eq_iff dep dep').0 same)))
      | inr other ↦ rw other refl
    ])
