-- ===== src/TraceEvent/Tests.antt =====
-- The theorems on the trace event log at two threads and a file.
use car_multimedia_android_a.Base.{
  ℕ, ◌≡◌, refl, Bool, true, false, Option, none, some, List, [], ◌∷◌, ◌++◌, String,
}
use car_multimedia_android_a.TraceEvent.Log.{
  Event, LogFile, default, other, State, returned, raised, trace_enable, trace_flush, trace_disable,
}
use car_multimedia_android_a.TraceEvent.Log.Session.{
  Command, add, flush_now, run, events, written, opened, trace_disable-run,
}
use car_multimedia_android_a.TraceEvent.Log.Broken.{trace_enable-raised}

abbrev dumps : Event ℕ → List ℕ
dumps e = e.ts ∷ []

abbrev ident : ℕ → Option ℕ
ident t = some t

abbrev can_open : String → Bool
can_open p = true

abbrev fresh : State ℕ dumps ident can_open
fresh = record {
  enabled = false;
  log_file = none;
  cur_events = [];
  tls = λ t. none;
  atexit_registered_for_pid = none;
  control_allowed = true;
  files = λ p. [];
}

abbrev calls : List (Command ℕ dumps ident can_open 7 "/log")
calls =
    add 1 "B" 10 "python" "f" none
    ∷ flush_now
    ∷ add 2 "B" 20 "python" "g" none
    ∷ add 1 "E" 30 "python" "f" none
    ∷ []

abbrev begun : State ℕ dumps ident can_open
begun =
    (trace_enable ℕ dumps ident can_open (record { pid = 7; thread = 1 }) 5 none ""
      (LogFile.named "/log") fresh).1

trace_disable-run_example :
    let r =
      trace_disable ℕ dumps ident can_open (run ℕ dumps ident can_open 7 "/log" calls begun) in
    (r.0 ≡ returned)
    × (r.1.enabled ≡ false)
    × (r.1.cur_events ≡ [])
    × (r.1.log_file ≡ none)
    × (r.1.files "/log"
        ≡ opened ℕ dumps ident can_open 7 "/log" (record { pid = 7; thread = 1 }) 5 none []
          ++ written ℕ dumps ident can_open 7 "/log" (events ℕ dumps ident can_open 7 "/log" calls))
unfolding trace_enable
trace_disable-run_example =
    trace_disable-run ℕ dumps ident can_open 7 "/log" 1 5 none "" fresh refl (λ u. refl) refl calls

abbrev stuck : State ℕ dumps ident can_open
stuck =
    (trace_enable ℕ dumps ident can_open (record { pid = 7; thread = 1 }) 5 none "" other fresh).1

trace_enable-raised_example :
    (stuck.enabled ≡ true)
    × ((trace_enable ℕ dumps ident can_open
          (record { pid = 7; thread = 1 })
          5
          none
          ""
          default
          stuck).0
        ≡ raised)
    × ((trace_flush ℕ dumps ident can_open stuck).0 ≡ raised)
    × ((trace_disable ℕ dumps ident can_open stuck).0 ≡ raised)
unfolding trace_enable
trace_enable-raised_example =
    trace_enable-raised ℕ dumps ident can_open (record { pid = 7; thread = 1 }) 5 none "" other
      default fresh refl refl refl refl refl
