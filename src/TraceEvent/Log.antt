-- ===== src/TraceEvent/Log.antt =====
-- trace_event_impl/log.py of py_trace_event: its global variables are a record, with the files, and
-- each of its functions takes and returns it. Every function holds the lock, so calls of several
-- threads are a row of calls.
pub mod Batches
pub mod Session
pub mod Broken
use car_multimedia_android_a.Base.{
  ℕ, ◌≡◌, Bool, true, false, not, ◌&&◌, Option, none, some, List, [], ◌∷◌, ◌++◌, String, ◌<>◌,
  str_eq, is_empty, if◌then◌else◌, ◌==◌,
}

-- A dict as it is appended to `_cur_events`; its args are any type, and `none` is {}.
pub record Event (Args : Type 0) : Type 0 where
  pub ph : String
  pub category : String
  pub pid : ℕ
  pub tid : Option ℕ
  pub ts : ℕ
  pub name : String
  pub args : Option Args

-- What `_tls` holds for a thread.
pub record Tls : Type 0 where
  pub pid : ℕ
  pub tid : ℕ

-- Where a call comes from: `os.getpid()`, and a thread.
pub record Caller : Type 0 where
  pub pid : ℕ
  pub thread : ℕ

-- The argument of trace_enable: None, a path, an object with a fileno() that writes to a path, or
-- anything else.
pub data LogFile : Type 0 where
  default other : LogFile
  named file_object : String → LogFile

-- json.dumps, the `ident` of a thread, and which paths can be opened.
module _ (Args : Type 0) (dumps : Event Args → List ℕ) (ident : ℕ → Option ℕ)
    (can_open : String → Bool) where
  pub record State : Type 0 where
    pub enabled : Bool
    pub log_file : Option String
    pub cur_events : List (Event Args)
    pub tls : ℕ → Option Tls
    pub atexit_registered_for_pid : Option ℕ
    pub control_allowed : Bool
    pub files : String → List ℕ

  pub data Ended : Type 0 where
    returned raised : Ended

  -- `_log_file.write(text)` at its end
  abbrev pub write : String → List ℕ → State → State
  write p text s = record s { files = λ q. if str_eq p q then s.files q ++ text else s.files q }

  -- `threading.current_thread().ident`, or the pid if that is None or 0
  abbrev pub tid_or_pid : Option ℕ → ℕ → ℕ
  tid_or_pid none pid = pid
  tid_or_pid (some tid) pid = if tid == 0 then pid else tid

  -- The event that opens a log file; `argv` is what sys.argv is written as.
  abbrev pub process_argv : Caller → ℕ → Option Args → Event Args
  process_argv c now argv = record {
    ph = "M";
    category = "process_argv";
    pid = c.pid;
    tid = ident c.thread;
    ts = now;
    name = "process_argv";
    args = argv;
  }

  -- What _trace_enable writes to the file that it has opened; the file can be locked and written
  -- to, and an object given in its place is open for writing.
  unfoldable pub open_log : Caller → ℕ → Option Args → String → State → State
  open_log c now argv p s =
      let s1 : State = record s { log_file = some p } in
      if is_empty (s.files p)
      then write p (b'[' ∷ (dumps (process_argv c now argv) ++ (10 ∷ []))) s1
      else s1

  -- `open(...)`, which may raise
  abbrev pub open_named : Caller → ℕ → Option Args → String → State → Ended × State
  open_named c now argv p s =
      if can_open p then (returned, open_log c now argv p s) else (raised, s)

  -- `_trace_enable`; `program` is what a missing name is made of.
  unfoldable pub trace_enable : Caller → ℕ → Option Args → String → LogFile → State → Ended × State
  unfolding open_log
  trace_enable c now argv program file s =
      let s1 : State = record s { enabled = true } in
      if s.enabled then (raised, s) else if not s.control_allowed then (raised, s) else elim file [
        | default ↦
            open_named c now argv
              ((if str_eq program "" then "trace_event" else program) <> ".json") s1
        | named p ↦ open_named c now argv p s1
        | file_object p ↦ (returned, open_log c now argv p s1)
        | other ↦ (raised, s1)
      ]

  -- `",\n".join(...)` of the events, behind its first item
  unfoldable pub join_events : List (Event Args) → List ℕ
  join_events [] = []
  join_events (e ∷ es) = b',' ∷ 10 ∷ (dumps e ++ join_events es)

  -- What _flush writes for the events.
  abbrev pub batch : List (Event Args) → List ℕ
  batch [] = []
  batch (e ∷ es) = b',' ∷ 10 ∷ (dumps e ++ join_events es)

  -- `_flush`; without a log file the lock raises.
  unfoldable pub flush : Bool → State → Ended × State
  unfolding join_events
  flush close s = elim s.log_file [
    | none ↦ (raised, s)
    | some p ↦ (
      returned,
      record (write p (batch s.cur_events) s) {
        cur_events = [];
        log_file = if close then none else some p;
      },
    )
  ]

  unfoldable pub trace_flush : State → Ended × State
  unfolding flush
  trace_flush s = if s.enabled then flush false s else (returned, s)

  unfoldable pub trace_disable : State → Ended × State
  unfolding flush
  trace_disable s =
      if not s.control_allowed
      then (raised, s)
      else if not s.enabled
      then (returned, s)
      else flush true (record s { enabled = false })

  -- `_disallow_tracing_control`, `trace_is_enabled` and `is_tracing_controllable`
  abbrev pub disallow_tracing_control : State → State
  disallow_tracing_control s = record s { control_allowed = false }

  abbrev pub trace_is_enabled : State → Bool
  trace_is_enabled s = s.enabled

  abbrev pub is_tracing_controllable : State → Bool
  is_tracing_controllable s = s.control_allowed

  abbrev pub is_pid : Option ℕ → ℕ → Bool
  is_pid none p = false
  is_pid (some q) p = q == p

  -- `hasattr(_tls, 'pid') and _tls.pid == os.getpid()`
  abbrev pub is_known : Option Tls → ℕ → Bool
  is_known none pid = false
  is_known (some t) pid = t.pid == pid

  -- The `if` of add_trace_event: a thread that is new, or in a process that has forked.
  unfoldable pub enter : Caller → State → State
  enter c s =
      let forked = not (is_pid s.atexit_registered_for_pid c.pid) in
      let tls : Tls = record { pid = c.pid; tid = tid_or_pid (ident c.thread) c.pid } in
      if is_known (s.tls c.thread) c.pid then s else record s {
        tls = λ t. if c.thread == t then some tls else s.tls t;
        atexit_registered_for_pid = some c.pid;
        cur_events = if forked then [] else s.cur_events;
      }

  abbrev pub tid_of : Option Tls → Option ℕ
  tid_of none = none
  tid_of (some t) = some t.tid

  abbrev pub pid_of : Option Tls → ℕ → ℕ
  pid_of none pid = pid
  pid_of (some t) pid = t.pid

  unfoldable pub add_trace_event :
      Caller → String → ℕ → String → String → Option Args → State → State
  unfolding enter
  add_trace_event c ph ts category name args s =
      let s1 = enter c s in
      let event : Event Args = record {
        ph = ph;
        category = category;
        pid = pid_of (s1.tls c.thread) c.pid;
        tid = tid_of (s1.tls c.thread);
        ts = ts;
        name = name;
        args = args;
      } in
      if s.enabled then record s1 { cur_events = s1.cur_events ++ (event ∷ []) } else s

  -- `trace_begin` and `trace_end`
  abbrev pub trace_begin : Caller → ℕ → String → Option Args → State → State
  trace_begin c now name args = add_trace_event c "B" now "python" name args

  abbrev pub trace_end : Caller → ℕ → String → Option Args → State → State
  trace_end c now name args = add_trace_event c "E" now "python" name args
