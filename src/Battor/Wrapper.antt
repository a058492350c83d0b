-- ===== src/Battor/Wrapper.antt =====
-- `BattOrWrapper`: its attributes, and its methods as functions of them and of the host. What the
-- wrapper calls of the operating system, of cloud storage and of the dependency manager is an
-- interface; it waits by WaitFor of py_utils.
pub mod Session
use Prim.Native.String.{slice, len}
use text.Mathlib.Text.{find?}
use car_multimedia_android_a.Base.{
  ℕ, zero, suc, ◌+◌, ◌-◌, ◌*◌, ◌/◌, ◌≡◌, Bool, true, false, not, ◌&&◌, ◌||◌, Option, none, some,
  List, [], ◌∷◌, ◌++◌, String, ◌<>◌, str_eq, is_some, ltb, leb, ◌==◌, if◌then◌else◌,
}
use car_multimedia_android_a.PyUtils.Clock.{Clock}
use car_multimedia_android_a.PyUtils.WaitFor.{wait_for, met, timed_out}

-- The exceptions. `unfinished` is none of Python: it is a wait cut off by its fuel.
pub data Error : Type 0 where
  assertion_error battor_error attribute_error type_error value_error io_error : Error
  timeout_exception flash_error fetch_error cloud_storage_error os_error unfinished : Error

pub data Result (A : Type 0) : Type 0 where
  raised : Error → Result A
  returned : A → Result A

-- What the wrapper calls. `kill` signals a process that nobody has waited for, which does not fail.
pub record Host : Type 1 where
  pub State : Type 0
  pub Shell : Type 0
  pub Code : Type 0
  pub time : State → ℕ
  pub sleep : ℕ → State → State
  pub popen : List String → State → Result Shell × State
  pub poll : Shell → State → Option Code
  pub kill : Shell → State → State
  -- A line written to the shell's input and flushed, and the line that it answers
  pub ask : Shell → String → State → Result String × State
  pub named_temporary_file : State → Result String × State
  pub read : String → State → Result String
  pub is_network_io_enabled : State → Bool
  -- `cloud_storage.Insert`, its PermissionError caught; another exception of it is not.
  pub insert : Option String → String → State → Result (Unit {0}) × State
  pub fetch_path : String → State → Result String × State
  pub fetch_path_with_version : String → State → Result (String × String) × State
  -- `subprocess.check_output`, its CalledProcessError as the `flash_error` that it becomes
  pub check_output : List String → State → Result (Unit {0}) × State

abbrev pub clock_of : Host → Clock
clock_of H = record { State = H.State; time = H.time; sleep = H.sleep }

module _ (H : Host) where
  -- The attributes that change, and the three that decide a method.
  pub record Wrapper : Type 0 where
    pub battor_path : Option String
    pub agent_binary : String
    pub serial_log_bucket : Option String
    pub tracing : Bool
    pub battor_shell : Option H.Shell
    pub trace_results_path : Option String
    pub start_tracing_time : Option ℕ
    pub stop_tracing_time : Option ℕ
    pub trace_results : Option String
    pub serial_log_file : Option String
    pub git_hash : Option String

  pub record World : Type 0 where
    pub battor : Wrapper
    pub host : H.State

  -- What follows a call that may have raised.
  abbrev pub and_then :
      {A B : Type 0} → Result A × World → (A → World → Result B × World) → Result B × World
  and_then (raised e, w) k = (raised e, w)
  and_then (returned a, w) k = k a w

  -- `__init__`, but for the binary, which is fetched, and the path
  abbrev pub new_wrapper : Option String → String → Option String → Wrapper
  new_wrapper battor_path agent_binary serial_log_bucket = record {
    battor_path = battor_path;
    agent_binary = agent_binary;
    serial_log_bucket = serial_log_bucket;
    tracing = false;
    battor_shell = none;
    trace_results_path = none;
    start_tracing_time = none;
    stop_tracing_time = none;
    trace_results = none;
    serial_log_file = none;
    git_hash = none;
  }

  -- `KillBattOrShell`
  unfoldable pub kill_battor_shell : World → World
  kill_battor_shell w = elim w.battor.battor_shell [
    | none ↦ w
    | some shell ↦ record w { host = H.kill shell w.host }
  ]

  -- `_UploadSerialLogToCloudStorage`
  unfoldable pub upload_serial_log : World → Result (Unit {0}) × World
  upload_serial_log w = elim w.battor.serial_log_file [
    | none ↦ (returned tt, w)
    | some file ↦
        let (inserted, h) = H.insert w.battor.serial_log_bucket file w.host in
        if H.is_network_io_enabled w.host
        then (inserted, record w { host = h })
        else (returned tt, w)
  ]

  -- `self._serial_log_file = None`
  abbrev pub drop_serial_log : World → World
  drop_serial_log w = record w { battor = record (w.battor) { serial_log_file = none } }

  -- `'Done.' in status`
  abbrev pub is_done : String → Bool
  is_done status = is_some (find? status "Done.")

  -- The `if check_return` of _SendBattOrCommand
  unfoldable pub check_status : Bool → String → World → Result String × World
  unfolding kill_battor_shell upload_serial_log
  check_status check_return status w =
      if check_return && not (is_done status)
      then and_then (upload_serial_log (kill_battor_shell w))
          (λ _ w1. (raised battor_error, drop_serial_log w1))
      else (returned status, w)

  -- `_SendBattOrCommand` with `_SendBattOrCommandImpl`; None has no `stdin`.
  unfoldable pub send_battor_command : String → Bool → World → Result String × World
  unfolding check_status
  send_battor_command cmd check_return w = elim w.battor.battor_shell [
    | none ↦ (raised attribute_error, w)
    | some shell ↦
        let (answer, h) = H.ask shell cmd w.host in
        and_then (answer, record w { host = h }) (check_status check_return)
  ]

  -- The serial log of StartShell: the file, if there is a bucket
  abbrev pub open_serial_log : World → Result (Unit {0}) × World
  open_serial_log w = elim w.battor.serial_log_bucket [
    | none ↦ (returned tt, w)
    | some _ ↦
        let (file, h) = H.named_temporary_file w.host in
        and_then (file, record w { host = h })
          (λ name w1. (
            returned tt,
            record w1 { battor = record (w1.battor) { serial_log_file = some name } },
          ))
  ]

  abbrev pub flag : String → Option String → List String
  flag name none = []
  flag name (some v) = (name <> v) ∷ []

  -- `battor_cmd` of StartShell; an empty path or bucket is not told from None.
  abbrev pub battor_cmd : Wrapper → List String
  battor_cmd b =
      b.agent_binary ∷ (elim b.serial_log_bucket [
        | none ↦ []
        | some _ ↦ flag "--battor-serial-log=" b.serial_log_file
      ])
      ++ flag "--battor-path=" b.battor_path

  -- `self._battor_shell = self._StartShellImpl(battor_cmd)`, and the assertion after it
  abbrev pub launch : World → Result (Unit {0}) × World
  launch w =
      let (started, h) = H.popen (battor_cmd w.battor) w.host in
      and_then (started, record w { host = h })
        (λ shell w1. (
          elim (H.poll shell w1.host) [ none ↦ returned tt | some _ ↦ raised assertion_error ],
          record w1 { battor = record (w1.battor) { battor_shell = some shell } },
        ))

  -- `StartShell`
  unfoldable pub start_shell : World → Result (Unit {0}) × World
  start_shell w = elim w.battor.battor_shell [
    | some _ ↦ (raised assertion_error, w)
    | none ↦ and_then (open_serial_log w) (λ _ w1. launch w1)
  ]
