-- ===== src/Systrace/Tests.antt =====
-- Agents that reply by a script, and the theorems on the tracing controller at them.
use car_multimedia_android_a.Base.{ℕ, ◌≡◌, refl, true, false, none, some, List, [], ◌∷◌, ◌==◌, not}
use car_multimedia_android_a.Systrace.Controller.{
  Agents, AgentWithConfig, TracingController, start_tracing, stop_tracing, raised,
}
use car_multimedia_android_a.Systrace.Controller.Calls.{logged}
use car_multimedia_android_a.Systrace.Controller.Start.{Started, start_tracing-Started}
use car_multimedia_android_a.Systrace.Controller.Stop.{Stopped, stop_tracing-Stopped}
use car_multimedia_android_a.Systrace.Controller.Failed.{start_tracing-failed}

-- Agent 2 does not start and agent 3 does not stop; the others do all that they are asked. The
-- state is not used.
abbrev scripted : Agents
scripted = record {
  State = ℕ;
  Agent = ℕ;
  Config = ℕ;
  TraceResult = ℕ;
  start_agent_tracing = λ a c s. (some (not (a == 2)), s);
  stop_agent_tracing = λ a s. (some (not (a == 3)), s);
  get_results = λ a s. (some (some a), s);
  supports_explicit_clock_sync = λ a s. (some (a == 1), s);
  record_clock_sync_marker = λ a s. (true, s);
}

abbrev agents : List (AgentWithConfig (logged scripted))
agents =
    (record { agent = 1; config = 0 })
    ∷ (record { agent = 2; config = 0 })
    ∷ (record { agent = 3; config = 0 })
    ∷ []

abbrev idle : TracingController (logged scripted)
idle = record {
  child_agents = none;
  child_agents_with_config = agents;
  controller_agent = 0;
  controller_config = 5;
  trace_in_progress = false;
  all_results = none;
}

start_tracing-Started_example :
    Started scripted idle (0, []) (start_tracing (logged scripted) idle (0, []))
unfolding start_tracing
start_tracing-Started_example = start_tracing-Started scripted idle (0, []) refl

abbrev busy : TracingController (logged scripted)
busy = record idle { child_agents = some (1 ∷ 3 ∷ []); trace_in_progress = true }

stop_tracing-Stopped_example :
    Stopped scripted busy
      (1 ∷ 3 ∷ [])
      (0, [])
      (1 ∷ 0 ∷ [])
      (stop_tracing (logged scripted) busy (0, []))
unfolding stop_tracing
stop_tracing-Stopped_example = stop_tracing-Stopped scripted busy (1 ∷ 3 ∷ []) (0, []) refl refl

-- The controller agent 2 does not start.
abbrev broken : TracingController scripted
broken = record {
  child_agents = none;
  child_agents_with_config = [];
  controller_agent = 2;
  controller_config = 5;
  trace_in_progress = false;
  all_results = none;
}

start_tracing-failed_example :
    let c1 = (start_tracing scripted broken 0).1 in
    ((start_tracing scripted c1 7).0 ≡ raised) × ((stop_tracing scripted c1 7).0 ≡ raised)
unfolding start_tracing
start_tracing-failed_example = start_tracing-failed scripted broken 0 7 refl refl
