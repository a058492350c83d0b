-- ===== src/Battor/Running/Reachable.antt =====
-- The calls of a wrapper's methods as steps, and what they never break.
use car_multimedia_android_a.Base.{
  ℕ, ◌≡◌, refl, sym, ap, subst, ◌∙◌, ◌⊎◌, inl, inr, true, false, Option, String, ◌<>◌, is_some,
  arith, Bool-cases, Option-cases,
}
use car_multimedia_android_a.Battor.Wrapper.{
  Host, World, Result, raised, returned, Error, and_then, new_wrapper, kill_battor_shell,
  upload_serial_log, send_battor_command, start_shell,
}
use car_multimedia_android_a.Battor.Wrapper.Session.{
  wait_for_exit, stop_shell, get_firmware_git_hash, flash_firmware, flash_battor, start_tracing,
  stop_tracing, set_tracing, ask_host, stop_cmd, reserve_results, collect_timeout, read_results,
  collect_trace_data, record_clock_sync_marker, supports_explicit_clock_sync,
}
use car_multimedia_android_a.Battor.Running.{
  status, and_then-Holds, if-Holds, kill-status, upload-status, send-status, wait-status,
  start_shell-Started, stop_shell-tracing, get_hash-status, flash_firmware-status,
}
use car_multimedia_android_a.Battor.Running.Flashing.{flash_battor-Flashed, Flashed}

module _ (H : Host) where
  -- A wrapper that is tracing only with a shell.
  abbrev pub IsRunning : World H → Type 0
  IsRunning w = (w.battor.tracing ≡ false) ⊎ (is_some w.battor.battor_shell ≡ true)

  -- The calls of the public methods, whether they raise or return; a trace is collected when none
  -- is on.
  pub data Step (w : World H) : World H → Type 0 where
    starts_shell : Step w (start_shell H w).1
    stops_shell : (t : Option ℕ) → Step w (stop_shell H t w).1
    starts_tracing : Step w (start_tracing H w).1
    stops_tracing : Step w (stop_tracing H w).1
    collects : (t : Option ℕ) → w.battor.tracing ≡ false → Step w (collect_trace_data H t w).1
    records_marker : (id : String) → Step w (record_clock_sync_marker H id w).1
    asks_support : Step w (supports_explicit_clock_sync H w).1
    flashes : (hex config : String) → Step w (flash_firmware H hex config w).1
    reads_hash : Step w (get_firmware_git_hash H w).1
    kills : Step w (kill_battor_shell H w)

  pub data Steps (w : World H) : World H → Type 0 where
    done : Steps w w
    then_step : {u v : World H} → Steps w u → Step u v → Steps w v

  of_status : (u w : World H) → status H u ≡ status H w → IsRunning w → IsRunning u
  of_status u w p q = subst (λ v. (v.0 ≡ false) ⊎ (v.1 ≡ true)) (sym p) q

  abbrev HasShell : World H → Type 0
  HasShell w = is_some w.battor.battor_shell ≡ true

  start_tracing-refused :
      (w : World H)
      → is_some w.battor.battor_shell ≡ false
      → start_tracing H w ≡ (raised Error.assertion_error, w)
  unfolding start_tracing
  start_tracing-refused w p = ground arith

  Flashed-IsRunning :
      (w : World H) (r : Result (Unit {0}) × World H)
      → Flashed H w r
      → w.battor.tracing ≡ false
      → IsRunning
          (and_then H r (λ _ w1.
            and_then H
              (send_battor_command H "StartTracing" true w1)
              (λ _ w2. (returned tt, set_tracing H w2)))).1
  Flashed-IsRunning w (raised e, w1) f n = inl (f.same ∙ n)
  Flashed-IsRunning w (returned _, w1) f n = elim f.shell [
    | inr (e, p) ↦ absurd (cc)
    | inl p ↦ inr (
        and_then-Holds H HasShell (send_battor_command H "StartTracing" true w1) _
          (ap (λ v. v.1) (send-status H "StartTracing" true w1) ∙ p) (λ _ w2 q2. q2))
  ]

  start_tracing-on :
      (w : World H)
      → w.battor.tracing ≡ true
      → start_tracing H w ≡ (raised Error.assertion_error, w)
  unfolding start_tracing
  start_tracing-on w p = ground arith

  start_tracing-off :
      (w : World H)
      → HasShell w
      → w.battor.tracing ≡ false
      → start_tracing H w
        ≡ and_then H (flash_battor H w) (λ _ w1.
          and_then H
            (send_battor_command H "StartTracing" true w1)
            (λ _ w2. (returned tt, set_tracing H w2)))
  unfolding start_tracing
  start_tracing-off w p n = ground arith

  start_tracing-IsRunning : (w : World H) → IsRunning w → IsRunning (start_tracing H w).1
  start_tracing-IsRunning w q = elim (Bool-cases (is_some w.battor.battor_shell)) [
    | inr p ↦ subst (λ r. IsRunning r.1) (sym (start_tracing-refused w p)) q
    | inl p ↦ elim (Bool-cases w.battor.tracing) [
      | inl on ↦ subst (λ r. IsRunning r.1) (sym (start_tracing-on w on)) q
      | inr off ↦
          subst (λ r. IsRunning r.1) (sym (start_tracing-off w p off))
            (Flashed-IsRunning w (flash_battor H w) (flash_battor-Flashed H w p) off)
    ]
  ]

  start_shell-IsRunning : (w : World H) → IsRunning w → IsRunning (start_shell H w).1
  start_shell-IsRunning w q =
      let s = start_shell-Started H w in
      elim s.shell [
        | inl p ↦ inr p
        | inr (e, _, gone) ↦ elim q [ inl off ↦ inl (s.same ∙ off) | inr there ↦ absurd (cc) ]
      ]

  stop_shell-refused :
      (t : Option ℕ) (w : World H)
      → w.battor.tracing ≡ true
      → stop_shell H t w ≡ (raised Error.assertion_error, w)
  unfolding stop_shell
  stop_shell-refused t w p = ground arith

  stop_shell-IsRunning : (t : Option ℕ) (w : World H) → IsRunning w → IsRunning (stop_shell H t w).1
  stop_shell-IsRunning t w q = elim (Bool-cases w.battor.tracing) [
    | inl p ↦ subst (λ r. IsRunning r.1) (sym (stop_shell-refused t w p)) q
    | inr p ↦ inl (stop_shell-tracing H t w ∙ p)
  ]

  stop_tracing-IsRunning : (w : World H) → IsRunning w → IsRunning (stop_tracing H w).1
  unfolding stop_tracing
  stop_tracing-IsRunning w q =
      if-Holds H IsRunning w.battor.tracing _ _
        (and_then-Holds H IsRunning (reserve_results H w) _
          (and_then-Holds H IsRunning (ask_host H H.named_temporary_file w) _ q (λ _ _ q1. q1))
          (λ _ w1 q1.
            and_then-Holds H IsRunning (send_battor_command H (stop_cmd H w1) false w1) _
              (of_status (send_battor_command H (stop_cmd H w1) false w1).1 w1
                (send-status H (stop_cmd H w1) false w1) q1)
              (λ _ w2 _. inl refl)))
        q

  abbrev NotTracing : World H → Type 0
  NotTracing w = w.battor.tracing ≡ false

  read_results-tracing : (w : World H) → NotTracing w → NotTracing (read_results H w).1
  read_results-tracing w p = elim (Option-cases w.battor.trace_results_path) [
    | inl n ↦ ground arith
    | inr (path, e) ↦ ground arith
  ]

  collect-tracing :
      (t : Option ℕ) (w : World H) → NotTracing w → NotTracing (collect_trace_data H t w).1
  unfolding collect_trace_data
  collect-tracing t w p =
      and_then-Holds H NotTracing (collect_timeout H t w.battor, w) _ p
        (λ s w1 q1.
          and_then-Holds H NotTracing (wait_for_exit H s w1) _
            (ap (λ v. v.0) (wait-status H s w1) ∙ q1)
            (λ _ w2 q2.
              and_then-Holds H NotTracing (upload_serial_log H w2) _
                (ap (λ v. v.0) (upload-status H w2) ∙ q2) (λ _ w3 q3. read_results-tracing w3 q3)))

  record-status :
      (id : String) (w : World H) → status H (record_clock_sync_marker H id w).1 ≡ status H w
  record-status id w =
      and_then-Holds H (λ w1. status H w1 ≡ status H w)
        (send_battor_command H ("RecordClockSyncMarker " <> id) true w) _
        (send-status H ("RecordClockSyncMarker " <> id) true w) (λ _ _ q. q)

  support-status : (w : World H) → status H (supports_explicit_clock_sync H w).1 ≡ status H w
  support-status w =
      and_then-Holds H (λ w1. status H w1 ≡ status H w)
        (send_battor_command H "SupportsExplicitClockSync" false w) _
        (send-status H "SupportsExplicitClockSync" false w) (λ _ _ q. q)

  Step-IsRunning : {w u : World H} → Step w u → IsRunning w → IsRunning u
  Step-IsRunning {w} starts_shell q = start_shell-IsRunning w q
  Step-IsRunning {w} (stops_shell t) q = stop_shell-IsRunning t w q
  Step-IsRunning {w} starts_tracing q = start_tracing-IsRunning w q
  Step-IsRunning {w} stops_tracing q = stop_tracing-IsRunning w q
  Step-IsRunning {w} (collects t p) q = inl (collect-tracing t w p)
  Step-IsRunning {w} (records_marker id) q =
      of_status (record_clock_sync_marker H id w).1 w (record-status id w) q
  Step-IsRunning {w} asks_support q =
      of_status (supports_explicit_clock_sync H w).1 w (support-status w) q
  Step-IsRunning {w} (flashes hex config) q =
      of_status (flash_firmware H hex config w).1 w (flash_firmware-status H hex config w) q
  Step-IsRunning {w} reads_hash q =
      of_status (get_firmware_git_hash H w).1 w (get_hash-status H w) q
  Step-IsRunning {w} kills q = of_status (kill_battor_shell H w) w (kill-status H w) q

  -- However the methods of a new wrapper are called, whatever they raise, and whatever the shell,
  -- cloud storage and the flashing tool answer, it is tracing only while it has a shell; a trace
  -- is collected only when none is on.
  pub Steps-IsRunning :
      (path : Option String) (binary : String) (bucket : Option String) (h : H.State) (w : World H)
      → Steps (record { battor = new_wrapper H path binary bucket; host = h }) w
      → IsRunning w
  Steps-IsRunning path binary bucket h w done = inl refl
  Steps-IsRunning path binary bucket h w (then_step {u} steps step) =
      Step-IsRunning step (Steps-IsRunning path binary bucket h u steps)
