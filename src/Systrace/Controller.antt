-- ===== src/Systrace/Controller.antt =====
-- `TracingController` and CreateAgentsWithConfig of systrace/tracing_controller.py. The agents are an
-- interface, since each is a program of its own; the controller agent is one of them.
pub mod Calls
pub mod Start
pub mod Failed
pub mod Stop
use car_multimedia_android_a.Base.{
  ◌≡◌, Bool, true, false, Option, none, some, List, [], ◌∷◌, ◌++◌, length, ltb, if◌then◌else◌,
}

-- The methods of a `TracingAgent`. A result `none`, and `false` of record_clock_sync_marker, is an
-- exception; `some none` of get_results is a result that is false, as a timeout gives.
pub record Agents : Type 1 where
  pub State : Type 0
  pub Agent : Type 0
  pub Config : Type 0
  pub TraceResult : Type 0
  pub start_agent_tracing : Agent → Config → State → Option Bool × State
  pub stop_agent_tracing : Agent → State → Option Bool × State
  pub get_results : Agent → State → Option (Option TraceResult) × State
  pub supports_explicit_clock_sync : Agent → State → Option Bool × State
  pub record_clock_sync_marker : Agent → State → Bool × State

module _ (A : Agents) where
  pub record AgentWithConfig : Type 0 where
    pub agent : A.Agent
    pub config : A.Config

  pub record TracingController : Type 0 where
    pub child_agents : Option (List A.Agent)
    pub child_agents_with_config : List AgentWithConfig
    pub controller_agent : A.Agent
    pub controller_config : A.Config
    pub trace_in_progress : Bool
    pub all_results : Option (List A.TraceResult)

  -- `TracingController.__init__`
  unfoldable pub new_tracing_controller :
      List AgentWithConfig → A.Agent → A.Config → TracingController
  new_tracing_controller agents_with_config controller_agent controller_config = record {
    child_agents = none;
    child_agents_with_config = agents_with_config;
    controller_agent = controller_agent;
    controller_config = controller_config;
    trace_in_progress = false;
    all_results = none;
  }

  -- `if ...: succ_agents.append(agent)`, in front of the agents behind it
  abbrev pub keep : Bool → A.Agent → Option (List A.Agent) → Option (List A.Agent)
  keep done agent none = none
  keep true agent (some succ) = some (agent ∷ succ)
  keep false agent (some succ) = some succ

  -- The loop of StartTracing over the child agents; `none` is an exception of one of them.
  unfoldable pub start_agents : List AgentWithConfig → A.State → Option (List A.Agent) × A.State
  start_agents [] s = (some [], s)
  start_agents (a ∷ more) s =
      let (started, s1) = A.start_agent_tracing a.agent a.config s in
      let (succ, s2) = start_agents more s1 in
      elim started [ none ↦ (none, s1) | some done ↦ (keep done a.agent succ, s2) ]

  -- How a call ends.
  pub data Ended : Type 0 where
    raised failed : Ended
    started : Ended
    collected : List A.TraceResult → Ended

  -- The end of StartTracing.
  abbrev pub with_children :
      TracingController → Option (List A.Agent) × A.State → Ended × TracingController × A.State
  with_children c (none, s) = (raised, c, s)
  with_children c (some succ, s) = (started, record c { child_agents = some succ }, s)

  -- `StartTracing`
  unfoldable pub start_tracing : TracingController → A.State → Ended × TracingController × A.State
  unfolding start_agents
  start_tracing c s =
      let c1 : TracingController = record c { trace_in_progress = true } in
      let (done, s1) = A.start_agent_tracing c.controller_agent c.controller_config s in
      if c.trace_in_progress then (raised, c, s) else elim done [
        | none ↦ (raised, c1, s1)
        | some done ↦
            if done
            then with_children c1 (start_agents c.child_agents_with_config s1)
            else (failed, c1, s1)
      ]

  -- `agent.SupportsExplicitClockSync()`, if it returns
  abbrev pub is_supported : Option Bool → Bool
  is_supported none = false
  is_supported (some b) = b

  -- `_IssueClockSyncMarker`, false if an agent raises.
  unfoldable pub issue_clock_sync_marker : List A.Agent → A.State → Bool × A.State
  issue_clock_sync_marker [] s = (true, s)
  issue_clock_sync_marker (a ∷ more) s =
      let (reply, s1) = A.supports_explicit_clock_sync a s in
      let (done, s2) = A.record_clock_sync_marker a s1 in
      let rest = issue_clock_sync_marker more (if is_supported reply then s2 else s1) in
      elim reply [
        | none ↦ (false, s1)
        | some supports ↦ if supports then if done then rest else (false, s2) else rest
      ]

  -- The loop of StopTracing over the child agents.
  unfoldable pub stop_agents : List A.Agent → A.State → Option (List A.Agent) × A.State
  stop_agents [] s = (some [], s)
  stop_agents (a ∷ more) s =
      let (stopped, s1) = A.stop_agent_tracing a s in
      let (succ, s2) = stop_agents more s1 in
      elim stopped [ none ↦ (none, s1) | some done ↦ (keep done a succ, s2) ]

  -- `all_results.append(result)`, in front of the results behind it
  abbrev pub add_result :
      Option A.TraceResult → Option (List A.TraceResult) → Option (List A.TraceResult)
  add_result r none = none
  add_result none (some rs) = some rs
  add_result (some r) (some rs) = some (r ∷ rs)

  -- The loop of StopTracing over the agents that were stopped.
  unfoldable pub collect_results : List A.Agent → A.State → Option (List A.TraceResult) × A.State
  collect_results [] s = (some [], s)
  collect_results (a ∷ more) s =
      let (result, s1) = A.get_results a s in
      let (rs, s2) = collect_results more s1 in
      elim result [ none ↦ (none, s1) | some r ↦ (add_result r rs, s2) ]

  abbrev pub with_results :
      TracingController
      → Option (List A.TraceResult) × A.State
      → Ended × TracingController × A.State
  with_results c (none, s) = (raised, c, s)
  with_results c (some rs, s) = (collected rs, record c { all_results = some rs }, s)

  -- StopTracing behind the child agents: `na` of them were asked to stop, and `succ` did.
  unfoldable pub stop_controller :
      TracingController
      → List A.Agent
      → List A.Agent
      → A.State
      → Ended × TracingController × A.State
  unfolding collect_results
  stop_controller c agents succ s =
      let (stopped, s1) = A.stop_agent_tracing c.controller_agent s in
      let left = if ltb (length succ) (length agents) then succ else agents in
      elim stopped [
        | none ↦ (raised, c, s1)
        | some done ↦
            if done
            then with_results (record c { child_agents = some left })
                (collect_results (left ++ (c.controller_agent ∷ [])) s1)
            else (failed, c, s1)
      ]

  -- StopTracing from the markers on.
  unfoldable pub stop_children :
      TracingController → List A.Agent → A.State → Ended × TracingController × A.State
  unfolding issue_clock_sync_marker stop_agents stop_controller
  stop_children c agents s =
      let (marked, s1) = issue_clock_sync_marker agents s in
      let (succ, s2) = stop_agents agents s1 in
      if marked
      then elim succ [ none ↦ (raised, c, s2) | some succ ↦ stop_controller c agents succ s2 ]
      else (raised, c, s1)

  -- `StopTracing`; without child agents the loop over None raises.
  unfoldable pub stop_tracing : TracingController → A.State → Ended × TracingController × A.State
  unfolding stop_children
  stop_tracing c s =
      let c1 : TracingController = record c { trace_in_progress = false } in
      if c.trace_in_progress
      then elim c.child_agents [ none ↦ (raised, c1, s) | some agents ↦ stop_children c1 agents s ]
      else (raised, c, s)

-- A module of agents, as `get_config` and `try_create_agent` of it; `none` is None. The command-line
-- options are fixed.
pub record AgentModule (A : Agents) : Type 0 where
  pub config : Option A.Config
  pub agent_for : Option A.Config → Option A.Agent

-- `if agent and config: result.append(...)`
abbrev pub add_agent :
    (A : Agents)
    → Option A.Agent
    → Option A.Config
    → List (AgentWithConfig A)
    → List (AgentWithConfig A)
add_agent A (some a) (some c) result = record { agent = a; config = c } ∷ result
add_agent A (some a) none result = result
add_agent A none c result = result

-- `CreateAgentsWithConfig`
unfoldable pub create_agents_with_config :
    (A : Agents) → List (AgentModule A) → List (AgentWithConfig A)
create_agents_with_config A [] = []
create_agents_with_config A (m ∷ modules) =
    add_agent A (m.agent_for m.config) m.config (create_agents_with_config A modules)
