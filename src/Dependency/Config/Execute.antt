-- ===== src/Dependency/Config/Execute.antt =====
-- ExecuteUpdateJobs is all or nothing, but for a write of the config that is cut off.
use car_multimedia_android_a.Base.{
  ◌≡◌, refl, sym, subst, Bool, true, false, Option, none, some, Option-cases, ◌⊎◌, List, [], ◌∷◌,
  is_empty, arith, Bool-cases, inl, inr,
}
use car_multimedia_android_a.Dependency.Uploader.{
  CloudStorage, IsLawful, Uploader, Outcome, completed, conflict, storage_error, upload_all,
  rollback_all,
}
use car_multimedia_android_a.Dependency.Uploader.Rollback.{Agree}
use car_multimedia_android_a.Dependency.Uploader.Atomic.{
  AreSeparate, in_backups, rollback_all-upload_all,
}
use car_multimedia_android_a.Dependency.Config.Data.{ConfigData, data_eq, data_eq_refl}
use car_multimedia_android_a.Dependency.Config.Platform.{
  BaseConfig, Error, read_write, value_error, write_failed, rollback_failed, upload_failed, Result,
  ok, err,
}
use car_multimedia_android_a.Dependency.Config.Jobs.{
  Machine, Writing, not_opened, cut_off, written, World, is_dirty, undo_uploads, upload_and_write,
  execute_update_jobs,
}

is_empty-nil {ℓ} : {A : Type ℓ} (xs : List A) → is_empty xs ≡ true → xs ≡ []
is_empty-nil [] h = refl
is_empty-nil (x ∷ xs) h = cc

-- What holds if the exception did not come from the rollback itself.
abbrev pub Restored : Error → Type 0 → Type 0
Restored rollback_failed P = Unit {0}
Restored read_write P = P
Restored value_error P = P
Restored write_failed P = P
Restored (upload_failed _) P = P

holds-Restored : (e : Error) {P : Type 0} → P → Restored e P
holds-Restored rollback_failed h = tt
holds-Restored read_write h = h
holds-Restored value_error h = h
holds-Restored write_failed h = h
holds-Restored (upload_failed _) h = h

module _ (S : CloudStorage) (L : IsLawful S) (m : Machine) where
  -- The file is as before, or a write was cut off.
  abbrev pub IsKept : World S → Option ConfigData → Type 0
  IsKept w file = (file ≡ w.file) ⊎ ((m.write_config ≡ cut_off) × (file ≡ none))

  -- What a call of ExecuteUpdateJobs has done, by its result.
  abbrev pub Executed : World S → Result Bool × World S → Type 0
  Executed w (ok false, w') = (is_dirty S w ≡ ok false) × (w' ≡ w)
  Executed w (ok true, w') =
      (is_dirty S w ≡ ok true)
      × (((w.config.pending_uploads ≡ []) × (w' ≡ w))
          ⊎ ((w'.file ≡ some w.config.config_data)
              × (w'.config ≡ record (w.config) { pending_uploads = [] })
              × (is_dirty S w' ≡ ok false)))
  Executed w (err e, w') =
      IsKept w w'.file
      × (w'.config.config_data ≡ w.config.config_data)
      × Restored e (Agree S L (in_backups w.config.pending_uploads) w'.cloud w.cloud)

  undo_uploads-Executed :
      (e : Error) (pending : List Uploader) (cloud : S.State) (w : World S)
      (file : Option ConfigData)
      → IsKept w file
      → ((rollback_all S pending cloud).0 ≡ true
          → Agree S L
              (in_backups w.config.pending_uploads)
              (rollback_all S pending cloud).2
              w.cloud)
      → Executed w (undo_uploads S m e pending cloud (record w { file = file }))
  unfolding undo_uploads
  undo_uploads-Executed e pending cloud w file k h =
      elim (Bool-cases (rollback_all S pending cloud).0) [
        | inl fine ↦ rw fine (k, refl, holds-Restored e (h fine))
        | inr bad ↦ rw bad (k, refl, tt)
      ]

  -- What is written is what is compared with.
  clean :
      (c : BaseConfig) (cloud : S.State)
      → is_dirty S (record {
        config = record c { pending_uploads = [] };
        file = some c.config_data;
        cloud = cloud;
      })
        ≡ ok false
  unfolding is_dirty
  clean c cloud = rw (data_eq_refl c.config_data)

  upload_and_write-Executed :
      (force : Bool) (w : World S)
      → is_dirty S w ≡ ok true
      → AreSeparate w.config.pending_uploads
      → Executed w (upload_and_write S m force w)
  unfolding upload_and_write
  upload_and_write-Executed force w dirty sep =
      ended (upload_all S force w.config.pending_uploads w.cloud).0
    where
      pending : List Uploader
      pending = (upload_all S force w.config.pending_uploads w.cloud).1

      cloud : S.State
      cloud = (upload_all S force w.config.pending_uploads w.cloud).2

      undone :
          (e : Error) (file : Option ConfigData)
          → IsKept w file
          → Executed w (undo_uploads S m e pending cloud (record w { file = file }))
      undone e file kept =
          undo_uploads-Executed e pending cloud w file kept
            (rollback_all-upload_all S L force w.config.pending_uploads w.cloud sep)

      wrote :
          (how : Writing)
          → m.write_config ≡ how
          → Executed w (elim how [
            | written ↦ (
              ok true,
              record {
                config = record (w.config) { pending_uploads = [] };
                file = some w.config.config_data;
                cloud = cloud;
              },
            )
            | not_opened ↦ undo_uploads S m write_failed pending cloud w
            | cut_off ↦ undo_uploads S m write_failed pending cloud (record w { file = none })
          ])
      wrote written e = (dirty, inr (refl, refl, clean w.config cloud))
      wrote not_opened e = undone write_failed w.file (inl refl)
      wrote cut_off e = undone write_failed none (inr (e, refl))

      ended :
          (out : Outcome)
          → Executed w (elim out [
            | completed ↦ elim m.write_config [
              | written ↦ (
                ok true,
                record {
                  config = record (w.config) { pending_uploads = [] };
                  file = some w.config.config_data;
                  cloud = cloud;
                },
              )
              | not_opened ↦ undo_uploads S m write_failed pending cloud w
              | cut_off ↦ undo_uploads S m write_failed pending cloud (record w { file = none })
            ]
            | conflict ↦ undo_uploads S m (upload_failed conflict) pending cloud w
            | storage_error ↦ undo_uploads S m (upload_failed storage_error) pending cloud w
          ])
      ended completed = wrote m.write_config refl
      ended conflict = undone (upload_failed conflict) w.file (inl refl)
      ended storage_error = undone (upload_failed storage_error) w.file (inl refl)

  module _ (force : Bool) (w : World S) where
    execute_read_only :
        w.config.writable ≡ false → execute_update_jobs S m force w ≡ (err read_write, w)
    unfolding execute_update_jobs
    execute_read_only h = ground arith

    execute_no_json :
        w.config.writable ≡ true
        → is_dirty S w ≡ err value_error
        → execute_update_jobs S m force w ≡ (err value_error, w)
    unfolding execute_update_jobs
    execute_no_json h k = ground arith

    execute_clean :
        w.config.writable ≡ true
        → is_dirty S w ≡ ok false
        → execute_update_jobs S m force w ≡ (ok false, w)
    unfolding execute_update_jobs
    execute_clean h k = ground arith

    execute_no_pending :
        w.config.writable ≡ true
        → is_dirty S w ≡ ok true
        → is_empty w.config.pending_uploads ≡ true
        → execute_update_jobs S m force w ≡ (ok true, w)
    unfolding execute_update_jobs
    execute_no_pending h k e = ground arith

    execute_pending :
        w.config.writable ≡ true
        → is_dirty S w ≡ ok true
        → is_empty w.config.pending_uploads ≡ false
        → execute_update_jobs S m force w ≡ upload_and_write S m force w
    unfolding execute_update_jobs
    execute_pending h k e = ground arith

    is_dirty-cases :
        (is_dirty S w ≡ err value_error) ⊎ ((is_dirty S w ≡ ok true) ⊎ (is_dirty S w ≡ ok false))
    unfolding is_dirty
    is_dirty-cases = elim (Option-cases w.file) [
      | inl n ↦ inl (ground arith)
      | inr (curr, e) ↦ elim (Bool-cases (data_eq w.config.config_data curr)) [
        | inl same ↦ inr (inr (ground arith))
        | inr other ↦ inr (inl (ground arith))
      ]
    ]

  -- Without an interrupt by the user, and for pending uploads none of which was tried before, and
  -- none of which writes to the backup location of a later one: if ExecuteUpdateJobs returns False, the config was not changed and
  -- nothing was done. If it returns True with uploads pending, the file holds the changed data, no
  -- upload is pending, and the config is clean. If it raises, the data is as before, and so is the
  -- file, unless its write was cut off behind its opening, which leaves it without a config; and
  -- unless the rollback failed too, every object of cloud storage that is not at a backup location
  -- is as before.
  pub execute_update_jobs-Executed :
      (force : Bool) (w : World S)
      → AreSeparate w.config.pending_uploads
      → Executed w (execute_update_jobs S m force w)
  execute_update_jobs-Executed force w sep = elim (Bool-cases w.config.writable) [
    | inr fixed ↦
        subst (Executed w) (sym (execute_read_only force w fixed)) (inl refl, refl, λ b p _. refl)
    | inl writable ↦ elim (is_dirty-cases force w) [
      | inl broken ↦
          subst (Executed w) (sym (execute_no_json force w writable broken))
            (inl refl, refl, λ b p _. refl)
      | inr (inr same) ↦ subst (Executed w) (sym (execute_clean force w writable same)) (same, refl)
      | inr (inl dirty) ↦ elim (Bool-cases (is_empty w.config.pending_uploads)) [
        | inl idle ↦
            subst (Executed w) (sym (execute_no_pending force w writable dirty idle))
              (dirty, inl (is_empty-nil _ idle, refl))
        | inr busy ↦
            subst (Executed w) (sym (execute_pending force w writable dirty busy))
              (upload_and_write-Executed force w dirty sep)
      ]
    ]
  ]
