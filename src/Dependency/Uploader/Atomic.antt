-- ===== src/Dependency/Uploader/Atomic.antt =====
-- A row of uploads, rolled back from its end, leaves cloud storage as it was.
use car_multimedia_android_a.Base.{
  ◌≡◌, refl, ap, ◌∙◌, Bool, true, false, ◌||◌, List, [], ◌∷◌, String, is_some, arith, any,
}
use car_multimedia_android_a.Dependency.Uploader.{
  CloudStorage, IsLawful, Uploader, path_text, Outcome, completed, conflict, storage_error, upload,
  rollback, upload_all, rollback_all,
}
use car_multimedia_android_a.Dependency.Uploader.Rollback.{
  IsFresh, is_backup, Left, upload-Left, Agree, rollback-Left,
}

-- The object at `b` and `p` is the backup of one of the uploads.
abbrev pub in_backups : List Uploader → String → String → Bool
in_backups us b p = any (λ u. is_backup u b p) us

-- No upload was made yet, and none writes to the backup location of a later one.
abbrev pub AreSeparate : List Uploader → Type 0
AreSeparate [] = Unit {0}
AreSeparate (u ∷ us) =
    IsFresh u
    × (in_backups us u.cs_bucket u.cs_remote_path ≡ false)
    × (in_backups us u.cs_bucket (path_text u.cs_backup_path) ≡ false)
    × AreSeparate us

or-left : (a b : Bool) → (a || b) ≡ false → a ≡ false
or-left true b h = cc
or-left false b h = refl

or-right : (a b : Bool) → (a || b) ≡ false → b ≡ false
or-right true b h = cc
or-right false b h = h

module _ (S : CloudStorage) (L : IsLawful S) where
  rollback-fresh :
      (u : Uploader) (t : S.State)
      → IsFresh u
      → (is_some (rollback S u t).0 ≡ true) × ((rollback S u t).2 ≡ t)
  unfolding rollback
  rollback-fresh u t fresh = ground arith

  rollback_all-cons :
      (v : Uploader) (us : List Uploader) (t : S.State)
      → (rollback_all S (v ∷ us) t).0 ≡ true
      → ((rollback_all S us t).0 ≡ true)
        × (is_some (rollback S v (rollback_all S us t).2).0 ≡ true)
        × ((rollback_all S (v ∷ us) t).2 ≡ (rollback S v (rollback_all S us t).2).2)
  unfolding rollback_all
  rollback_all-cons v us t done = ground arith

  rollback_all-fresh :
      (us : List Uploader) (t : S.State) → AreSeparate us → (rollback_all S us t).2 ≡ t
  unfolding rollback_all
  rollback_all-fresh [] t h = refl
  rollback_all-fresh (u ∷ us) t h =
      ground (arith, rollback_all-fresh us t h.3, rollback-fresh u t h.0)

  rollback_all-Left :
      (u v : Uploader) (us vs : List Uploader) (s t1 t2 : S.State)
      → Left S L u s v t1
      → AreSeparate (u ∷ us)
      → ((rollback_all S vs t2).0 ≡ true → Agree S L (in_backups us) (rollback_all S vs t2).2 t1)
      → (rollback_all S (v ∷ vs) t2).0 ≡ true
      → Agree S L (in_backups (u ∷ us)) (rollback_all S (v ∷ vs) t2).2 s
  rollback_all-Left u v us vs s t1 t2 left sep before done b p out =
      let (fine, changed, same) = rollback_all-cons v vs t2 done in
      ap (λ t. S.contents t b p) same
      ∙ rollback-Left S L u v s t1 _ (in_backups us) (before fine) sep.1 sep.2 changed b p
          (or-right (is_backup u b p) _ out) (or-left _ _ out) left

  -- What upload_all promises of a result `r`.
  abbrev Undone : List Uploader → S.State → Outcome × List Uploader × S.State → Type 0
  Undone us s (_, vs, t) =
      (rollback_all S vs t).0 ≡ true → Agree S L (in_backups us) (rollback_all S vs t).2 s

  -- One upload in front of others: they follow it, or were not begun.
  upload_all-cons :
      (out : Outcome) (u v : Uploader) (us : List Uploader) (s t1 : S.State)
      (r : Outcome × List Uploader × S.State)
      → Left S L u s v t1
      → AreSeparate (u ∷ us)
      → Undone us t1 r
      → Undone (u ∷ us) s (elim out [
        | completed ↦ (r.0, v ∷ r.1, r.2)
        | conflict ↦ (conflict, v ∷ us, t1)
        | storage_error ↦ (storage_error, v ∷ us, t1)
      ])
  upload_all-cons completed u v us s t1 r left sep ih =
      rollback_all-Left u v us r.1 s t1 r.2 left sep ih
  upload_all-cons conflict u v us s t1 r left sep ih =
      rollback_all-Left u v us us s t1 t1 left sep
        (λ _ b p _. ap (λ t. S.contents t b p) (rollback_all-fresh us t1 sep.3))
  upload_all-cons storage_error u v us s t1 r left sep ih =
      rollback_all-Left u v us us s t1 t1 left sep
        (λ _ b p _. ap (λ t. S.contents t b p) (rollback_all-fresh us t1 sep.3))

  -- The rollback behind the uploads.
  abbrev pub undone : Bool → List Uploader → S.State → Bool × List Uploader × S.State
  undone force us s = let (_, vs, t) = upload_all S force us s in rollback_all S vs t

  -- For uploads none of which was tried before, and none of which writes to the backup location of
  -- a later one: whether they all went through or one of them failed half-way, if the rollback of
  -- all of them succeeds, every object is as it was before, but for those at the backup locations.
  pub rollback_all-upload_all :
      (force : Bool) (us : List Uploader) (s : S.State)
      → AreSeparate us
      → (undone force us s).0 ≡ true
      → Agree S L (in_backups us) (undone force us s).2 s
  unfolding upload_all
  rollback_all-upload_all force [] s sep = λ done b p out. unfold rollback_all in refl
  rollback_all-upload_all force (u ∷ us) s sep =
      let (out, v, t1) = upload S force u s in
      upload_all-cons out u v us s t1 (upload_all S force us t1) (upload-Left S L force u s sep.0)
        sep (rollback_all-upload_all force us t1 sep.3)
