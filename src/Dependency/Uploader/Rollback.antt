-- ===== src/Dependency/Uploader/Rollback.antt =====
-- What a rollback undoes.
use car_multimedia_android_a.Base.{
  ◌≡◌, refl, sym, ◌∙◌, Bool, true, false, ◌&&◌, Option, none, some, String, str_eq, is_some,
  if◌then◌else◌, eq_iff, arith, Bool-cases, Option-cases, inl, inr,
}
use mathlib.Core.Path.{ap₂}
use car_multimedia_android_a.Dependency.Uploader.{
  CloudStorage, IsLawful, Uploader, path_text, conflict, insert_file, back_up, upload, rollback,
}

-- Nothing was uploaded yet.
pub record IsFresh (u : Uploader) : Type 0 where
  pub not_updated : u.updated ≡ false
  pub not_backed_up : u.backed_up ≡ false
  pub separate : str_eq (path_text u.cs_backup_path) u.cs_remote_path ≡ false

-- The object at `b` and `p` is the backup of `u`.
abbrev pub is_backup : Uploader → String → String → Bool
is_backup u b p = str_eq u.cs_bucket b && str_eq (path_text u.cs_backup_path) p

abbrev pub is_remote : Uploader → String → String → Bool
is_remote u b p = str_eq u.cs_bucket b && str_eq u.cs_remote_path p

and-left : (a b : Bool) → (a && b) ≡ true → a ≡ true
and-left true b h = refl
and-left false b h = cc

and-right : (a b : Bool) → (a && b) ≡ true → b ≡ true
and-right true b h = h
and-right false b h = cc

is_some-false {ℓ} : {A : Type ℓ} (o : Option A) → is_some o ≡ false → o ≡ none
is_some-false none h = refl
is_some-false (some a) h = cc

module _ (S : CloudStorage) (L : IsLawful S) where
  -- What an upload that began at `s` has left at `t`, by the flags that it set.
  pub data Left (u : Uploader) (s : S.State) (v : Uploader) (t : S.State) : Type 0 where
    nothing :
        v.updated ≡ false
        → v.backed_up ≡ false
        → ((b p : String) → S.contents t b p ≡ S.contents s b p)
        → Left u s v t
    added :
        v.updated ≡ true
        → v.backed_up ≡ false
        → v.cs_bucket ≡ u.cs_bucket
        → v.cs_remote_path ≡ u.cs_remote_path
        → S.contents s u.cs_bucket u.cs_remote_path ≡ none
        → ((b p : String) → is_remote u b p ≡ false → S.contents t b p ≡ S.contents s b p)
        → Left u s v t
    replaced :
        v.backed_up ≡ true
        → v.cs_bucket ≡ u.cs_bucket
        → v.cs_remote_path ≡ u.cs_remote_path
        → v.cs_backup_path ≡ u.cs_backup_path
        → S.contents t u.cs_bucket (path_text u.cs_backup_path)
          ≡ S.contents s u.cs_bucket u.cs_remote_path
        → ((b p : String)
            → is_remote u b p ≡ false
            → is_backup u b p ≡ false
            → S.contents t b p ≡ S.contents s b p)
        → Left u s v t

  insert_file-Left :
      (u : Uploader) (s : S.State)
      → IsFresh u
      → S.contents s u.cs_bucket u.cs_remote_path ≡ none
      → let (_, v, t) = insert_file S u s in Left u s v t
  unfolding insert_file
  insert_file-Left u s fresh gone =
      elim (Bool-cases (S.insert s u.cs_bucket u.cs_remote_path u.local_path).0) [
        | inl done ↦ rw done (
            added refl fresh.not_backed_up refl refl gone
              (λ b p h. L.insert_done s _ _ _ b p done ∙ rw h))
        | inr failed ↦ rw failed (
            nothing fresh.not_updated fresh.not_backed_up
              (λ b p. L.insert_failed s _ _ _ b p failed))
      ]

  -- Inserting behind a backup, whether it fails or not, leaves the backup there.
  insert_file-replaced :
      (u : Uploader) (s s1 : S.State)
      → IsFresh u
      → S.contents s1 u.cs_bucket (path_text u.cs_backup_path)
        ≡ S.contents s u.cs_bucket u.cs_remote_path
      → ((b p : String) → is_backup u b p ≡ false → S.contents s1 b p ≡ S.contents s b p)
      → let (_, v, t) = insert_file S (record u { backed_up = true }) s1 in Left u s v t
  unfolding insert_file
  insert_file-replaced u s s1 fresh saved same =
      elim (Bool-cases (S.insert s1 u.cs_bucket u.cs_remote_path u.local_path).0) [
        | inl done ↦ rw done (
            replaced refl refl refl refl
              (L.insert_done s1 _ _ _ _ _ done
                ∙ rw (apart, (eq_iff u.cs_bucket u.cs_bucket).1 refl) saved)
              (λ b p r k. L.insert_done s1 _ _ _ b p done ∙ rw r (same b p k)))
        | inr failed ↦ rw failed (
            replaced refl refl refl refl (L.insert_failed s1 _ _ _ _ _ failed ∙ saved)
              (λ b p r k. L.insert_failed s1 _ _ _ b p failed ∙ same b p k))
      ]
    where
      apart : str_eq u.cs_remote_path (path_text u.cs_backup_path) ≡ false
      apart = ground (
        arith,
        fresh.separate,
        eq_iff u.cs_remote_path (path_text u.cs_backup_path),
        eq_iff (path_text u.cs_backup_path) u.cs_remote_path,
      )

  back_up-Left :
      (u : Uploader) (s : S.State) → IsFresh u → let (_, v, t) = back_up S u s in Left u s v t
  unfolding back_up
  back_up-Left u s fresh =
      elim (Bool-cases (S.copy s u.cs_bucket u.cs_remote_path (path_text u.cs_backup_path)).0) [
        | inl done ↦ rw done (
            insert_file-replaced u s _ fresh
              (L.copy_done s _ _ _ _ _ done
                ∙ rw (
                  (eq_iff u.cs_bucket u.cs_bucket).1 refl,
                  (eq_iff (path_text u.cs_backup_path) (path_text u.cs_backup_path)).1 refl,
                ))
              (λ b p k. L.copy_done s _ _ _ b p done ∙ rw k))
        | inr failed ↦ rw failed (
            nothing fresh.not_updated fresh.not_backed_up (λ b p. L.copy_failed s _ _ _ b p failed))
      ]

  -- An upload, by whichever way it ends, leaves one of the three.
  pub upload-Left :
      (force : Bool) (u : Uploader) (s : S.State)
      → IsFresh u
      → let (_, v, t) = upload S force u s in Left u s v t
  unfolding upload
  upload-Left force u s fresh = elim (Option-cases (S.exists s u.cs_bucket u.cs_remote_path)) [
    | inl raised ↦ rw (raised, upload) (nothing fresh.not_updated fresh.not_backed_up (λ b p. refl))
    | inr (there, e) ↦ rw (e, upload) (found there e force)
  ]
    where
      found :
          (there : Bool)
          → S.exists s u.cs_bucket u.cs_remote_path ≡ some there
          → (force : Bool)
          → let (_, v, t) =
              (if there
                then if force then back_up S u s else (conflict, u, s)
                else insert_file S u s) in
            Left u s v t
      found true e true = back_up-Left u s fresh
      found true e false = nothing fresh.not_updated fresh.not_backed_up (λ b p. refl)
      found false e force = insert_file-Left u s fresh (is_some-false _ (L.exists-contents s _ _ e))

  abbrev pub Agree : (String → String → Bool) → S.State → S.State → Type 0
  Agree X s t = (b p : String) → X b p ≡ false → S.contents s b p ≡ S.contents t b p

  at_remote :
      (u : Uploader) (s : S.State) (o : Option S.File) (b p : String)
      → S.contents s u.cs_bucket u.cs_remote_path ≡ o
      → is_remote u b p ≡ true
      → S.contents s b p ≡ o
  at_remote u s o b p e r =
      ap₂ (S.contents s) (sym ((eq_iff u.cs_bucket b).0 (and-left _ _ r)))
        (sym ((eq_iff u.cs_remote_path p).0 (and-right _ _ r)))
      ∙ e

  rollback_nothing :
      (v : Uploader) (t : S.State) (b p : String)
      → v.updated ≡ false
      → v.backed_up ≡ false
      → S.contents (rollback S v t).2 b p ≡ S.contents t b p
  unfolding rollback
  rollback_nothing v t b p e f = ground arith

  rollback_added :
      (v : Uploader) (t : S.State) (b p : String)
      → v.updated ≡ true
      → v.backed_up ≡ false
      → is_some (rollback S v t).0 ≡ true
      → S.contents (rollback S v t).2 b p ≡ (if is_remote v b p then none else S.contents t b p)
  unfolding rollback
  rollback_added v t b p e f done = ground (arith, L.delete_done t v.cs_bucket v.cs_remote_path b p)

  rollback_replaced :
      (v : Uploader) (t : S.State) (b p : String)
      → v.backed_up ≡ true
      → is_some (rollback S v t).0 ≡ true
      → S.contents (rollback S v t).2 b p ≡ (
          if is_remote v b p
          then S.contents t v.cs_bucket (path_text v.cs_backup_path)
          else S.contents t b p)
  unfolding rollback
  rollback_replaced v t b p f done =
      ground (arith, L.copy_done t v.cs_bucket (path_text v.cs_backup_path) v.cs_remote_path b p)

  -- A rollback that succeeds undoes what the upload left, also where objects outside of it have
  -- changed since. Only the backup location keeps its new content.
  module _ (u v : Uploader) (s t t' : S.State) (X : String → String → Bool) (agree : Agree X t' t)
      (remote : X u.cs_bucket u.cs_remote_path ≡ false)
      (backup : X u.cs_bucket (path_text u.cs_backup_path) ≡ false)
      (done : is_some (rollback S v t').0 ≡ true) (b p : String) (out : X b p ≡ false)
      (not_backup : is_backup u b p ≡ false) where
    pub rollback-Left : Left u s v t → S.contents (rollback S v t').2 b p ≡ S.contents s b p
    rollback-Left (nothing e f same) = rollback_nothing v t' b p e f ∙ agree b p out ∙ same b p
    rollback-Left (added e f eb er gone same) =
        rollback_added v t' b p e f done
        ∙ rw (eb, er)
            (elim (Bool-cases (is_remote u b p)) [
              | inl r ↦ rw r (sym (at_remote u s none b p gone r))
              | inr r ↦ rw r (agree b p out ∙ same b p r)
            ])
    rollback-Left (replaced f eb er ek saved same) =
        rollback_replaced v t' b p f done
        ∙ rw (eb, er, ek)
            (elim (Bool-cases (is_remote u b p)) [
              | inl r ↦ rw r (
                  agree u.cs_bucket (path_text u.cs_backup_path) backup
                  ∙ saved
                  ∙ sym (at_remote u s _ b p refl r))
              | inr r ↦ rw r (agree b p out ∙ same b p r not_backup)
            ])
