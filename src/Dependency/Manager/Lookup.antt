-- ===== src/Dependency/Manager/Lookup.antt =====
-- What the configs of a manager add up to, and in which order their paths take precedence.
pub mod Found
use car_multimedia_android_a.Base.{
  ◌≡◌, refl, ap, sym, subst, ◌∙◌, Bool, true, false, ◌&&◌, ◌||◌, is_some, Option, none, some, List,
  [], ◌∷◌, ◌++◌, append_assoc, append-nil, String, str_eq, if◌then◌else◌, arith, eq_iff, Bool-cases,
  Option-cases, inl, inr,
}
use car_multimedia_android_a.Base.Dict.{lookup, insert, lookup-insert}
use car_multimedia_android_a.Dependency.LocalPaths
use car_multimedia_android_a.Dependency.LocalPaths.Laws.{
  or_else, or_else_assoc, or_else-none, get_local_path-update,
}
use car_multimedia_android_a.Dependency.Remote.{Host, CloudStorageInfo}
use car_multimedia_android_a.Dependency.Info.{
  DependencyInfo, Updated, updated, refused, update, merge_local, local_path_of, get_local_path,
}
use car_multimedia_android_a.Dependency.Manager.{
  LookupDict, Config, platforms_of, add_info, add_infos, update_dependencies, update_all,
  new_dependency_manager, get_dependency_info,
}

-- What a new entry for `i` is, over an old one.
abbrev entry : Option DependencyInfo → DependencyInfo → Updated
entry none i = updated i
entry (some old) i = update old i

abbrev put : LookupDict → DependencyInfo → Updated → Option LookupDict
put d i (refused c) = none
put d i (updated new) =
    some (insert i.dependency (insert i.platform new (platforms_of d i.dependency)) d)

add_info-put :
    (d : LookupDict) (i : DependencyInfo)
    → add_info d i ≡ put d i (entry (lookup i.platform (platforms_of d i.dependency)) i)
unfolding add_info
add_info-put d i = ground arith

abbrev pub at : LookupDict → String → String → Option DependencyInfo
at d k p = lookup p (platforms_of d k)

abbrev pub is_for : String → String → DependencyInfo → Bool
is_for k p i = str_eq i.dependency k && str_eq i.platform p

at-insert :
    (d : LookupDict) (i new : DependencyInfo) (k p : String)
    → at (insert i.dependency (insert i.platform new (platforms_of d i.dependency)) d) k p
      ≡ (if is_for k p i then some new else at d k p)
at-insert d i new k p = ground (
  arith,
  eq_iff i.dependency k,
  eq_iff i.platform p,
  lookup-insert i.dependency k (insert i.platform new (platforms_of d i.dependency)) d,
  lookup-insert i.platform p new (platforms_of d i.dependency),
)

put-some :
    (d : LookupDict) (i : DependencyInfo) (u : Updated) {d' : LookupDict}
    → put d i u ≡ some d'
    → (new : DependencyInfo) × (u ≡ updated new)
      × ((k p : String) → at d' k p ≡ (if is_for k p i then some new else at d k p))
put-some d i (refused c) e = absurd (cc)
put-some d i (updated new) e = (
  new,
  refl,
  λ k p.
      subst (λ x. at x k p ≡ (if is_for k p i then some new else at d k p)) (cc)
        (at-insert d i new k p),
)

module _ {A : Type 0} (unit : A) (view : DependencyInfo → A) where
  -- What a looked-up info holds; `unit` stands for nothing.
  abbrev pub seen : Option DependencyInfo → A
  seen none = unit
  seen (some i) = view i

  -- What the infos for `k` and `p` hold, joined in their order.
  abbrev pub joined : (A → A → A) → String → String → List DependencyInfo → A
  joined op k p [] = unit
  joined op k p (i ∷ is) = op (if is_for k p i then view i else unit) (joined op k p is)

-- Something that an info holds, which an update joins by `op`.
module _ {A : Type 0} (unit : A) (view : DependencyInfo → A) (op : A → A → A)
    (op_unit : (a : A) → op a unit ≡ a) (unit_op : (a : A) → op unit a ≡ a)
    (op_assoc : (a b c : A) → op (op a b) c ≡ op a (op b c))
    (view-update : (old i new : DependencyInfo)
      → update old i ≡ updated new
      → view new ≡ op (view old) (view i)) where
  view-entry :
      (o : Option DependencyInfo) (i new : DependencyInfo)
      → entry o i ≡ updated new
      → view new ≡ op (seen unit view o) (view i)
  view-entry none i new e = ap view (cc) ∙ sym (unit_op (view i))
  view-entry (some old) i new e = view-update old i new e

  is_for-at :
      (d : LookupDict) (i : DependencyInfo) (k p : String)
      → is_for k p i ≡ true
      → lookup i.platform (platforms_of d i.dependency) ≡ at d k p
  is_for-at d i k p e = ground (arith, eq_iff i.dependency k, eq_iff i.platform p)

  seen-add_info :
      (d d' : LookupDict) (i : DependencyInfo) (k p : String)
      → add_info d i ≡ some d'
      → seen unit view (at d' k p)
        ≡ op (seen unit view (at d k p)) (if is_for k p i then view i else unit)
  seen-add_info d d' i k p e =
      let (new, u, there) =
        put-some d i (entry (lookup i.platform (platforms_of d i.dependency)) i)
          (sym (add_info-put d i) ∙ e) in
      ap (seen unit view) (there k p) ∙ elim (Bool-cases (is_for k p i)) [
        | inl own ↦ rw own (
            view-entry (lookup i.platform (platforms_of d i.dependency)) i new u
            ∙ ap (λ o. op (seen unit view o) (view i)) (is_for-at d i k p own))
        | inr other ↦ rw other (sym (op_unit (seen unit view (at d k p))))
      ]

  add_infos-cons :
      (d d' : LookupDict) (i : DependencyInfo) (is : List DependencyInfo)
      → add_infos d (i ∷ is) ≡ some d'
      → (d1 : LookupDict) × (add_info d i ≡ some d1) × (add_infos d1 is ≡ some d')
  unfolding add_infos
  add_infos-cons d d' i is e = elim (Option-cases (add_info d i)) [
    | inl n ↦ absurd (ground arith)
    | inr (d1, s) ↦ (d1, s, ground arith)
  ]

  add_infos-nil : (d d' : LookupDict) → add_infos d [] ≡ some d' → d ≡ d'
  unfolding add_infos
  add_infos-nil d d' e = cc

  pub seen-add_infos :
      (d d' : LookupDict) (is : List DependencyInfo) (k p : String)
      → add_infos d is ≡ some d'
      → seen unit view (at d' k p) ≡ op (seen unit view (at d k p)) (joined unit view op k p is)
  seen-add_infos d d' [] k p e =
      ap (λ o. seen unit view (at o k p)) (sym (add_infos-nil d d' e))
      ∙ sym (op_unit (seen unit view (at d k p)))
  seen-add_infos d d' (i ∷ is) k p e =
      let (d1, one, rest) = add_infos-cons d d' i is e in
      seen-add_infos d1 d' is k p rest
      ∙ ap (λ a. op a (joined unit view op k p is)) (seen-add_info d d1 i k p one)
      ∙ op_assoc (seen unit view (at d k p)) _ (joined unit view op k p is)

pub updated-fields :
    (old i new : DependencyInfo)
    → update old i ≡ updated new
    → (new.config_paths ≡ old.config_paths ++ i.config_paths)
      × (new.local_path_info ≡ merge_local old.local_path_info i.local_path_info)
      × (new.cloud_storage_info ≡ or_else old.cloud_storage_info i.cloud_storage_info)
unfolding update
updated-fields old i new e = ground arith

local_path_of-merge :
    (H : Host) (s : H.State) (a b : Option LocalPaths.LocalPathInfo)
    → local_path_of H (merge_local a b) s ≡ or_else (local_path_of H a s) (local_path_of H b s)
local_path_of-merge H s none b = refl
local_path_of-merge H s (some groups) none = unfold LocalPaths.update in sym (or_else-none _)
local_path_of-merge H s (some groups) (some others) =
    (get_local_path-update (H.path_exists s) (H.mtime s) groups others).0

pub get_local_path-updated :
    (H : Host) (s : H.State) (old i new : DependencyInfo)
    → update old i ≡ updated new
    → get_local_path H new s ≡ or_else (get_local_path H old s) (get_local_path H i s)
unfolding get_local_path
get_local_path-updated H s old i new e =
    ap (λ o. local_path_of H o s) (updated-fields old i new e).1
    ∙ local_path_of-merge H s old.local_path_info i.local_path_info

-- The infos that all configs yield, in order.
abbrev pub all_infos : List Config → List DependencyInfo
all_infos [] = []
all_infos (c ∷ cs) = c.infos ++ all_infos cs

add_infos-append :
    (xs ys : List DependencyInfo) (d d1 : LookupDict)
    → add_infos d xs ≡ some d1
    → add_infos d (xs ++ ys) ≡ add_infos d1 ys
unfolding add_infos
add_infos-append [] ys d d1 e = cc
add_infos-append (x ∷ xs) ys d d1 e = elim (Option-cases (add_info d x)) [
  | inl n ↦ absurd (ground arith)
  | inr (d2, one) ↦ rw (one, add_infos) (add_infos-append xs ys d2 d1 (ground arith))
]

update_dependencies-some :
    (supported : List String) (d d1 : LookupDict) (c : Config)
    → update_dependencies supported d c ≡ some d1
    → add_infos d c.infos ≡ some d1
unfolding update_dependencies
update_dependencies-some supported d d1 c e = ground arith

pub update_all-infos :
    (supported : List String) (cs : List Config) (d d' : LookupDict)
    → update_all supported d cs ≡ some d'
    → add_infos d (all_infos cs) ≡ some d'
unfolding update_all
update_all-infos supported [] d d' e = unfold add_infos in e
update_all-infos supported (c ∷ cs) d d' e =
    elim (Option-cases (update_dependencies supported d c)) [
      | inl n ↦ absurd (ground arith)
      | inr (d1, one) ↦
          add_infos-append c.infos (all_infos cs) d d1
            (update_dependencies-some supported d d1 c one)
          ∙ update_all-infos supported cs d1 d' (ground arith)
    ]
