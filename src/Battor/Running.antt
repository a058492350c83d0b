-- ===== src/Battor/Running.antt =====
-- While a trace is on, the wrapper has a shell.
pub mod Flashing
pub mod Reachable
pub mod Stopped
use car_multimedia_android_a.Base.{
  ℕ, ◌≡◌, refl, sym, ap, subst, ◌∙◌, ◌⊎◌, inl, inr, Bool, true, false, not, ◌&&◌, ◌||◌, Option,
  none, some, List, [], ◌∷◌, String, str_eq, is_some, if◌then◌else◌, arith, Bool-cases,
  Option-cases,
}
use car_multimedia_android_a.Battor.Wrapper.{
  Host, Wrapper, World, Result, raised, returned, Error, and_then, kill_battor_shell,
  upload_serial_log, drop_serial_log, check_status, send_battor_command, start_shell, launch,
  open_serial_log, battor_cmd, is_done,
}
use car_multimedia_android_a.Battor.Wrapper.Session.{
  wait_for_exit, stop_shell, after_exit, close_timeout, ask_host, get_firmware_git_hash,
  flash_firmware, run_avrdude, avr_cmd, set_git_hash, flash_if_old, try_flash, restart,
  ignore_value_error, flash_battor, start_tracing, stop_tracing, send_stop, reserve_results,
  collect_timeout, read_results, collect_trace_data, record_clock_sync_marker,
}

module _ (H : Host) where
  -- Whether a trace is on, and whether there is a shell.
  abbrev pub status : World H → Bool × Bool
  status w = (w.battor.tracing, is_some w.battor.battor_shell)

  -- What holds after a call, and after whatever follows it, holds after both.
  pub and_then-Holds :
      (P : World H → Type 0) {A B : Type 0} (r : Result A × World H)
      (k : A → World H → Result B × World H)
      → P r.1
      → ((a : A) (w : World H) → P w → P (k a w).1)
      → P (and_then H r k).1
  and_then-Holds P (raised e, w) k p q = p
  and_then-Holds P (returned a, w) k p q = q a w p

  -- What holds after both branches holds after a test of them.
  pub if-Holds :
      (P : World H → Type 0) {A : Type 0} (b : Bool) (x y : Result A × World H)
      → P x.1
      → P y.1
      → P (if b then x else y).1
  if-Holds P true x y p q = p
  if-Holds P false x y p q = q

  pub kill-status : (w : World H) → status (kill_battor_shell H w) ≡ status w
  unfolding kill_battor_shell
  kill-status w = ground arith

  pub upload-status : (w : World H) → status (upload_serial_log H w).1 ≡ status w
  unfolding upload_serial_log
  upload-status w = ground arith

  check-status :
      (b : Bool) (answer : String) (w : World H) → status (check_status H b answer w).1 ≡ status w
  unfolding check_status
  check-status b answer w =
      if-Holds (λ w1. status w1 ≡ status w) (b && not (is_done H answer)) _ _
        (and_then-Holds (λ w1. status w1 ≡ status w) (upload_serial_log H (kill_battor_shell H w)) _
          (upload-status (kill_battor_shell H w) ∙ kill-status w) (λ _ _ q. q))
        refl

  abbrev asked : H.Shell → String → World H → Result String × World H
  asked shell cmd w = ((H.ask shell cmd w.host).0, record w { host = (H.ask shell cmd w.host).1 })

  send-some :
      (cmd : String) (b : Bool) (w : World H) (shell : H.Shell)
      → w.battor.battor_shell ≡ some shell
      → send_battor_command H cmd b w ≡ and_then H (asked shell cmd w) (check_status H b)
  unfolding send_battor_command
  send-some cmd b w shell p = ground arith

  send-none :
      (cmd : String) (b : Bool) (w : World H)
      → w.battor.battor_shell ≡ none
      → send_battor_command H cmd b w ≡ (raised Error.attribute_error, w)
  unfolding send_battor_command
  send-none cmd b w p = ground arith

  -- A command changes neither.
  pub send-status :
      (cmd : String) (b : Bool) (w : World H) → status (send_battor_command H cmd b w).1 ≡ status w
  send-status cmd b w = elim (Option-cases w.battor.battor_shell) [
    | inl p ↦ ap (λ r. status r.1) (send-none cmd b w p)
    | inr (shell, p) ↦
        ap (λ r. status r.1) (send-some cmd b w shell p)
        ∙ and_then-Holds (λ w1. status w1 ≡ status w) (asked shell cmd w) (check_status H b) refl
            (λ answer w1 q. check-status b answer w1 ∙ q)
  ]

  pub wait-status : (t : ℕ) (w : World H) → status (wait_for_exit H t w).1 ≡ status w
  unfolding wait_for_exit
  wait-status t w = ground arith

  open_serial_log-some :
      (w : World H) (bucket : String)
      → w.battor.serial_log_bucket ≡ some bucket
      → open_serial_log H w
        ≡ and_then H (ask_host H H.named_temporary_file w) (λ name w1.
          (returned tt, record w1 { battor = record (w1.battor) { serial_log_file = some name } }))
  open_serial_log-some w bucket p = ground arith

  open_serial_log-status : (w : World H) → status (open_serial_log H w).1 ≡ status w
  open_serial_log-status w = elim (Option-cases w.battor.serial_log_bucket) [
    | inl p ↦ ground arith
    | inr (bucket, p) ↦
        ap (λ r. status r.1) (open_serial_log-some w bucket p)
        ∙ and_then-Holds (λ w1. status w1 ≡ status w) (ask_host H H.named_temporary_file w) _ refl
            (λ _ _ q. q)
  ]

  -- StartShell leaves the trace as it was, and a shell behind, or an exception without any.
  pub record Started (w : World H) (r : Result (Unit {0}) × World H) : Type 0 where
    pub same : r.1.battor.tracing ≡ w.battor.tracing
    pub shell :
        (is_some r.1.battor.battor_shell ≡ true)
        ⊎ ((e : Error) × (r.0 ≡ raised e) × (is_some w.battor.battor_shell ≡ false))

  launch-Started :
      (w w1 : World H)
      → status w1 ≡ status w
      → w.battor.battor_shell ≡ none
      → Started w (launch H w1)
  launch-Started w w1 p q = from (H.popen (battor_cmd H w1.battor) w1.host)
    where
      from :
          (r : Result H.Shell × H.State)
          → Started w (
              and_then H
                (r.0, record w1 { host = r.1 })
                (λ shell w2. (
                  elim (H.poll shell w2.host) [
                    | none ↦ returned tt
                    | some _ ↦ raised Error.assertion_error
                  ],
                  record w2 { battor = record (w2.battor) { battor_shell = some shell } },
                )))
      from (raised e, h) = record {
        same = ap (λ v. v.0) p;
        shell = inr (e, refl, ap (λ o. is_some o) q);
      }
      from (returned shell, h) = record { same = ap (λ v. v.0) p; shell = inl refl }

  start_shell-none :
      (w : World H)
      → w.battor.battor_shell ≡ none
      → start_shell H w ≡ and_then H (open_serial_log H w) (λ _ w1. launch H w1)
  unfolding start_shell
  start_shell-none w p = ground arith

  start_shell-some :
      (w : World H) (shell : H.Shell)
      → w.battor.battor_shell ≡ some shell
      → start_shell H w ≡ (raised Error.assertion_error, w)
  unfolding start_shell
  start_shell-some w shell p = ground arith

  logged-Started :
      (w : World H) (r : Result (Unit {0}) × World H)
      → status r.1 ≡ status w
      → w.battor.battor_shell ≡ none
      → Started w (and_then H r (λ _ w1. launch H w1))
  logged-Started w (raised e, w1) p q = record {
    same = ap (λ v. v.0) p;
    shell = inr (e, refl, ap (λ o. is_some o) q);
  }
  logged-Started w (returned _, w1) p q = launch-Started w w1 p q

  pub start_shell-Started : (w : World H) → Started w (start_shell H w)
  start_shell-Started w = elim (Option-cases w.battor.battor_shell) [
    | inr (shell, p) ↦
        subst (Started w) (sym (start_shell-some w shell p))
          (record { same = refl; shell = inl (ap (λ o. is_some o) p) })
    | inl p ↦
        subst (Started w) (sym (start_shell-none w p))
          (logged-Started w (open_serial_log H w) (open_serial_log-status w) p)
  ]

  -- What the end of StopShell does to the trace: nothing.
  after_exit-tracing :
      (r : Result (Unit {0}) × World H) → (after_exit H r).1.battor.tracing ≡ r.1.battor.tracing
  after_exit-tracing (returned _, w) = refl
  after_exit-tracing (raised e, w) =
      elim e as (λ e. (after_exit H (raised e, w)).1.battor.tracing ≡ w.battor.tracing) [
        | Error.timeout_exception ↦ ap (λ p. p.0) (kill-status w)
        | other ↦ refl
      ]

  pub stop_shell-tracing :
      (t : Option ℕ) (w : World H) → (stop_shell H t w).1.battor.tracing ≡ w.battor.tracing
  unfolding stop_shell
  stop_shell-tracing t w =
      let sent = send-status "Exit" false w in
      let ended =
        and_then-Holds (λ w1. w1.battor.tracing ≡ w.battor.tracing)
          (send_battor_command H "Exit" false w)
          (λ _ w1. after_exit H (wait_for_exit H (close_timeout H t) w1)) (ap (λ p. p.0) sent)
          (λ _ w1 q.
            after_exit-tracing (wait_for_exit H (close_timeout H t) w1)
            ∙ ap (λ p. p.0) (wait-status (close_timeout H t) w1)
            ∙ q) in
      ground arith

  pub get_hash-status : (w : World H) → status (get_firmware_git_hash H w).1 ≡ status w
  unfolding get_firmware_git_hash
  get_hash-status w =
      if-Holds (λ w1. status w1 ≡ status w) (is_some w.battor.battor_shell) _ _
        (and_then-Holds (λ w1. status w1 ≡ status w)
          (send_battor_command H "GetFirmwareGitHash" false w) _
          (send-status "GetFirmwareGitHash" false w) (λ _ _ q. q))
        refl

  run_avrdude-some :
      (a b binary path : String) (w : World H)
      → w.battor.battor_path ≡ some path
      → run_avrdude H a b binary w
        ≡ and_then H
            (ask_host H (H.check_output (avr_cmd H binary path a b)) w)
            (λ _ w1. (returned true, set_git_hash H none w1))
  run_avrdude-some a b binary path w p = ground arith

  run_avrdude-status :
      (a b binary : String) (w : World H) → status (run_avrdude H a b binary w).1 ≡ status w
  run_avrdude-status a b binary w = elim (Option-cases w.battor.battor_path) [
    | inl p ↦ ground arith
    | inr (path, p) ↦
        ap (λ r. status r.1) (run_avrdude-some a b binary path w p)
        ∙ and_then-Holds (λ w1. status w1 ≡ status w)
            (ask_host H (H.check_output (avr_cmd H binary path a b)) w) _ refl (λ _ _ q. q)
  ]

  pub flash_firmware-status :
      (a b : String) (w : World H) → status (flash_firmware H a b w).1 ≡ status w
  unfolding flash_firmware
  flash_firmware-status a b w =
      if-Holds (λ w1. status w1 ≡ status w) (is_some w.battor.battor_shell) _ _ refl
        (and_then-Holds (λ w1. status w1 ≡ status w) (ask_host H (H.fetch_path "avrdude_binary") w)
          (run_avrdude H a b) refl (λ binary w1 q. run_avrdude-status a b binary w1 ∙ q))

  abbrev SameTrace : World H → World H → Type 0
  SameTrace w w1 = w1.battor.tracing ≡ w.battor.tracing

  -- An attempt to flash leaves the trace as it was.
  pub try_flash-tracing : (w : World H) → (try_flash H w).1.battor.tracing ≡ w.battor.tracing
  unfolding try_flash
  try_flash-tracing w =
      and_then-Holds (SameTrace w) (get_firmware_git_hash H w) _ (ap (λ p. p.0) (get_hash-status w))
        (λ hash w1 q1.
          and_then-Holds (SameTrace w) (ask_host H (H.fetch_path_with_version "battor_firmware") w1)
            _ q1
            (λ found w2 q2. if-Holds (SameTrace w) (str_eq found.1 hash) _ _ q2 (
              and_then-Holds (SameTrace w) (ask_host H (H.fetch_path "avrdude_config") w2) _ q2
                (λ config w3 q3.
                  and_then-Holds (SameTrace w) (stop_shell H none w3) _
                    (stop_shell-tracing none w3 ∙ q3)
                    (λ _ w4 q4. ap (λ p. p.0) (flash_firmware-status found.0 config w4) ∙ q4)))))
