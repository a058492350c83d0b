-- ===== src/Battor/Wrapper/Session.antt =====
-- The methods of `BattOrWrapper` that make a session: stopping the shell, flashing, and starting,
-- stopping and collecting a trace.
use car_multimedia_android_a.Base.{
  ℕ, zero, suc, ◌-◌, ◌*◌, ◌/◌, Bool, true, false, not, ◌||◌, Option, none, some, List, [], ◌∷◌,
  String, ◌<>◌, str_eq, is_some, if◌then◌else◌,
}
use car_multimedia_android_a.PyUtils.WaitFor.{Waited, wait_for, met, timed_out}
use car_multimedia_android_a.Battor.Text.{strip, is_hexadecimal, is_decimal, is_zero}
use car_multimedia_android_a.Battor.Wrapper.{
  Host, Wrapper, World, Result, raised, returned, Error, assertion_error, type_error, value_error,
  timeout_exception, unfinished, clock_of, and_then, kill_battor_shell, upload_serial_log,
  drop_serial_log, send_battor_command, start_shell,
}

module _ (H : Host) where
  -- `lambda: self.GetShellReturnCode() != None`
  abbrev pub has_exited : H.Shell → H.State → Option (Unit {0}) × H.State
  has_exited shell h = (elim (H.poll shell h) [ none ↦ none | some _ ↦ some tt ], h)

  -- What `py_utils.WaitFor` raises, if it does
  abbrev pub exit_of : Option (Waited (Unit {0})) → Result (Unit {0})
  exit_of none = raised unfinished
  exit_of (some timed_out) = raised timeout_exception
  exit_of (some (met _)) = returned tt

  -- The call of `py_utils.WaitFor` on the shell, with a timeout in seconds; None has no `poll`.
  unfoldable pub wait_for_exit : ℕ → World H → Result (Unit {0}) × World H
  wait_for_exit timeout w = elim w.battor.battor_shell [
    | none ↦ (raised Error.attribute_error, w)
    | some shell ↦
        let (outcome, h) = wait_for (clock_of H) (has_exited shell) (timeout * 1000) w.host in
        (exit_of outcome, record w { host = h })
  ]

  -- `timeout if timeout else DEFAULT_SHELL_CLOSE_TIMEOUT_S`
  abbrev pub close_timeout : Option ℕ → ℕ
  close_timeout none = 60
  close_timeout (some zero) = 60
  close_timeout (some (suc t)) = suc t

  -- The `finally` of StopShell
  abbrev pub forget_shell : World H → World H
  forget_shell w = record w { battor = record (w.battor) { battor_shell = none } }

  -- The `except` and the `finally` of StopShell
  abbrev pub after_exit : Result (Unit {0}) × World H → Result (Unit {0}) × World H
  after_exit (returned _, w) = (returned tt, forget_shell w)
  after_exit (raised e, w) = elim e [
    | timeout_exception ↦ (returned tt, forget_shell (kill_battor_shell H w))
    | other ↦ (raised other, forget_shell w)
  ]

  -- `StopShell`
  unfoldable pub stop_shell : Option ℕ → World H → Result (Unit {0}) × World H
  unfolding wait_for_exit
  stop_shell timeout w =
      if not (is_some w.battor.battor_shell) || w.battor.tracing
      then (raised assertion_error, w)
      else and_then H (send_battor_command H "Exit" false w)
          (λ _ w1. after_exit (wait_for_exit (close_timeout timeout) w1))

  -- A call of the host that answers, or raises
  abbrev pub ask_host : {A : Type 0} → (H.State → Result A × H.State) → World H → Result A × World H
  ask_host f w = let (answer, h) = f w.host in (answer, record w { host = h })

  -- `self._git_hash = `
  abbrev pub set_git_hash : Option String → World H → World H
  set_git_hash hash w = record w { battor = record (w.battor) { git_hash = hash } }

  -- `GetFirmwareGitHash`
  unfoldable pub get_firmware_git_hash : World H → Result String × World H
  get_firmware_git_hash w =
      if is_some w.battor.battor_shell
      then and_then H (send_battor_command H "GetFirmwareGitHash" false w) (λ status w1.
        let hash = strip status in
        (
          if is_hexadecimal hash then returned hash else raised value_error,
          set_git_hash (some hash) w1,
        ))
      else (raised assertion_error, w)

  -- `avr_cmd` of FlashFirmware, on a host where paths have no drive
  abbrev pub avr_cmd : String → String → String → String → List String
  avr_cmd binary path hex_path config_path =
      binary
      ∷ "-e"
      ∷ "-p"
      ∷ "x192a3u"
      ∷ "-c"
      ∷ "avr109"
      ∷ "-b"
      ∷ "115200"
      ∷ "-P"
      ∷ path
      ∷ "-U"
      ∷ ("flash:w:" <> hex_path)
      ∷ "-C"
      ∷ config_path
      ∷ "2>&1"
      ∷ []

  -- `subprocess.check_output(avr_cmd)` and what follows it; a path that is None is a TypeError.
  abbrev pub run_avrdude : String → String → String → World H → Result Bool × World H
  run_avrdude hex_path config_path binary w = elim w.battor.battor_path [
    | none ↦ (raised type_error, w)
    | some path ↦
        and_then H (ask_host (H.check_output (avr_cmd binary path hex_path config_path)) w)
          (λ _ w1. (returned true, set_git_hash none w1))
  ]

  -- `FlashFirmware`
  unfoldable pub flash_firmware : String → String → World H → Result Bool × World H
  flash_firmware hex_path config_path w =
      if is_some w.battor.battor_shell
      then (raised assertion_error, w)
      else and_then H (ask_host (H.fetch_path "avrdude_binary") w)
          (run_avrdude hex_path config_path)

  -- The rest of the `try` of _FlashBattOr, with the firmware and its hash
  abbrev pub flash_if_old : String → String × String → World H → Result Bool × World H
  flash_if_old device_git_hash (firmware, cs_git_hash) w =
      if str_eq cs_git_hash device_git_hash
      then (returned false, w)
      else and_then H (ask_host (H.fetch_path "avrdude_config") w)
          (λ config w1. and_then H (stop_shell none w1) (λ _ w2. flash_firmware firmware config w2))

  -- The `try` of _FlashBattOr
  unfoldable pub try_flash : World H → Result Bool × World H
  unfolding stop_shell get_firmware_git_hash flash_firmware
  try_flash w = and_then H (get_firmware_git_hash w) (λ hash w1.
      and_then H (ask_host (H.fetch_path_with_version "battor_firmware") w1) (flash_if_old hash))

  -- The `except ValueError` of _FlashBattOr; what is returned is not used.
  abbrev pub ignore_value_error : Result Bool → Result (Unit {0})
  ignore_value_error (returned _) = returned tt
  ignore_value_error (raised e) = elim e [ value_error ↦ returned tt | other ↦ raised other ]

  -- The `finally` of _FlashBattOr: an exception of the upload or of StartShell takes the place of
  -- another.
  abbrev pub restart : Result (Unit {0}) × World H → Result (Unit {0}) × World H
  restart (outcome, w) =
      if is_some w.battor.battor_shell
      then (outcome, w)
      else and_then H (upload_serial_log H w)
          (λ _ w1. and_then H (start_shell H (drop_serial_log H w1)) (λ _ w2. (outcome, w2)))

  -- `_FlashBattOr`
  unfoldable pub flash_battor : World H → Result (Unit {0}) × World H
  unfolding try_flash
  flash_battor w =
      if is_some w.battor.battor_shell
      then restart (ignore_value_error (try_flash w).0, (try_flash w).1)
      else (raised assertion_error, w)

  -- `int(time.time())`
  abbrev pub seconds : World H → ℕ
  seconds w = H.time w.host / 1000

  abbrev pub set_tracing : World H → World H
  set_tracing w = record w {
    battor = record (w.battor) { tracing = true; start_tracing_time = some (seconds w) };
  }

  -- `StartTracing`
  unfoldable pub start_tracing : World H → Result (Unit {0}) × World H
  unfolding flash_battor
  start_tracing w =
      if not (is_some w.battor.battor_shell) || w.battor.tracing
      then (raised assertion_error, w)
      else and_then H (flash_battor w) (λ _ w1.
        and_then H (send_battor_command H "StartTracing" true w1)
          (λ _ w2. (returned tt, set_tracing w2)))

  abbrev pub end_tracing : World H → World H
  end_tracing w = record w {
    battor = record (w.battor) { tracing = false; stop_tracing_time = some (seconds w) };
  }

  -- The temporary file of StopTracing
  abbrev pub reserve_results : World H → Result (Unit {0}) × World H
  reserve_results w = and_then H (ask_host H.named_temporary_file w) (λ name w1.
      (returned tt, record w1 { battor = record (w1.battor) { trace_results_path = some name } }))

  abbrev pub stop_cmd : World H → String
  stop_cmd w = "StopTracing " <> (elim w.battor.trace_results_path [ none ↦ "None" | some p ↦ p ])

  abbrev pub send_stop : World H → Result (Unit {0}) × World H
  send_stop w =
      and_then H (send_battor_command H (stop_cmd w) false w)
        (λ _ w1. (returned tt, end_tracing w1))

  -- `StopTracing`
  unfoldable pub stop_tracing : World H → Result (Unit {0}) × World H
  stop_tracing w =
      if w.battor.tracing
      then and_then H (reserve_results w) (λ _ w1. send_stop w1)
      else (raised assertion_error, w)

  -- `self._stop_tracing_time - self._start_tracing_time`, where no timeout is given; the clock went
  -- forward.
  abbrev pub collect_timeout : Option ℕ → Wrapper H → Result ℕ
  collect_timeout (some t) b = returned t
  collect_timeout none b = elim b.stop_tracing_time [
    | none ↦ raised type_error
    | some stop ↦ elim b.start_tracing_time [
      | none ↦ raised type_error
      | some start ↦ returned (stop - start)
    ]
  ]

  -- What CollectTraceData does after the file was read
  abbrev pub end_session : String → World H → World H
  end_session results w = record w {
    battor = record (w.battor) {
      trace_results = some results;
      battor_shell = none;
      serial_log_file = none;
    };
  }

  abbrev pub read_results : World H → Result String × World H
  read_results w = elim w.battor.trace_results_path [
    | none ↦ (raised type_error, w)
    | some path ↦
        and_then H (H.read path w.host, w)
          (λ results w1. (returned results, end_session results w1))
  ]

  -- `CollectTraceData`
  unfoldable pub collect_trace_data : Option ℕ → World H → Result String × World H
  unfolding wait_for_exit
  collect_trace_data timeout w =
      and_then H (collect_timeout timeout w.battor, w)
        (λ t w1.
          and_then H (wait_for_exit t w1)
            (λ _ w2. and_then H (upload_serial_log H w2) (λ _ w3. read_results w3)))

  -- `RecordClockSyncMarker`, on a sync_id that is a string
  abbrev pub record_clock_sync_marker : String → World H → Result (Unit {0}) × World H
  record_clock_sync_marker sync_id w =
      and_then H (send_battor_command H ("RecordClockSyncMarker " <> sync_id) true w)
        (λ _ w1. (returned tt, w1))

  -- `bool(int(status))`
  abbrev pub as_bool : String → Result Bool
  as_bool status = if is_decimal status then returned (not (is_zero status)) else raised value_error

  -- `SupportsExplicitClockSync`
  abbrev pub supports_explicit_clock_sync : World H → Result Bool × World H
  supports_explicit_clock_sync w =
      and_then H (send_battor_command H "SupportsExplicitClockSync" false w)
        (λ status w1. (as_bool status, w1))
