-- ===== src/Systrace/Controller/Stop.antt =====
-- What StopTracing has done when it returns results.
use car_multimedia_android_a.Base.{
  ◌≡◌, refl, ap, sym, subst, ◌∙◌, true, false, Option, none, some, List, [], ◌∷◌, ◌++◌,
  append_assoc, length, ltb, if◌then◌else◌, Option-cases, inl, inr, ◌⊎◌, arith, ◌<◌,
}
use car_multimedia_android_a.Systrace.Controller.{
  Agents, TracingController, Ended, collected, issue_clock_sync_marker, stop_agents,
  collect_results, with_results, stop_controller, stop_children, stop_tracing,
}
use car_multimedia_android_a.Systrace.Controller.Calls.{
  Call, Log, logged, call_stop, MarkerCalls, StopCalls, no_agents, stops, does_not_stop,
  ResultCalls, issue_clock_sync_marker-MarkerCalls, stop_agents-StopCalls,
  collect_results-ResultCalls,
}

module _ (A : Agents) where
  abbrev L : Agents
  L = logged A

  abbrev End : Type 0
  End = Ended L × TracingController L × Log A

  -- The agents that are left when the others did not stop.
  abbrev left_of : List A.Agent → List A.Agent → List A.Agent
  left_of agents succ = if ltb (length succ) (length agents) then succ else agents

  StopCalls-length :
      {agents succ : List A.Agent} {calls : List (Call A)}
      → StopCalls A agents calls succ
      → (length succ < length agents) ⊎ (succ ≡ agents)
  StopCalls-length no_agents = inr refl
  StopCalls-length (stops {a = a} h) = elim (StopCalls-length h) [
    | inl l ↦ inl (omega arith)
    | inr e ↦ inr (ap (λ xs. a ∷ xs) e)
  ]
  StopCalls-length (does_not_stop {agents = xs} {succ = ys} h) = elim (StopCalls-length h) [
    | inl l ↦ inl (omega arith)
    | inr e ↦ let same : length ys ≡ length xs = ap length e in inl (omega arith)
  ]

  left_of-StopCalls :
      {agents succ : List A.Agent} {calls : List (Call A)}
      → StopCalls A agents calls succ
      → left_of agents succ ≡ succ
  left_of-StopCalls {agents} {succ} h = elim (StopCalls-length h) [
    | inl l ↦ ground arith
    | inr e ↦ ground arith
  ]

  with_results-collected :
      (c : TracingController L) (r : Option (List A.TraceResult) × Log A) {rs : List A.TraceResult}
      → (with_results L c r).0 ≡ collected rs
      → (r.0 ≡ some rs)
        × (with_results L c r ≡ (collected rs, record c { all_results = some rs }, r.1))
  with_results-collected c (none, s) e = absurd (cc)
  with_results-collected c (some rs, s) e =
      (cc, ap (λ x. (collected x, record c { all_results = some x }, s)) (cc))

  stop_controller-collected :
      (c : TracingController L) (agents succ : List A.Agent) (s : Log A) {rs : List A.TraceResult}
      → (stop_controller L c agents succ s).0 ≡ collected rs
      → ((A.stop_agent_tracing c.controller_agent s.0).0 ≡ some true)
        × (stop_controller L c agents succ s
            ≡ with_results L
                (record c { child_agents = some (left_of agents succ) })
                (collect_results L
                  (left_of agents succ ++ (c.controller_agent ∷ []))
                  (L.stop_agent_tracing c.controller_agent s).1))
  unfolding stop_controller
  stop_controller-collected c agents succ s e = ground arith

  stop_children-collected :
      (c : TracingController L) (agents : List A.Agent) (s : Log A) {rs : List A.TraceResult}
      → (stop_children L c agents s).0 ≡ collected rs
      → let s1 = (issue_clock_sync_marker L agents s).1 in
        ((issue_clock_sync_marker L agents s).0 ≡ true)
        × (succ : List A.Agent) × ((stop_agents L agents s1).0 ≡ some succ)
        × (stop_children L c agents s ≡ stop_controller L c agents succ (stop_agents L agents s1).1)
  unfolding stop_children
  stop_children-collected c agents s e =
      elim (Option-cases (stop_agents L agents (issue_clock_sync_marker L agents s).1).0) [
        | inl n ↦ absurd (ground arith)
        | inr (succ, h) ↦ (ground arith, succ, h, ground arith)
      ]

  stop_tracing-collected :
      (c : TracingController L) (agents : List A.Agent) (s : Log A) {rs : List A.TraceResult}
      → c.child_agents ≡ some agents
      → (stop_tracing L c s).0 ≡ collected rs
      → stop_tracing L c s ≡ stop_children L (record c { trace_in_progress = false }) agents s
  unfolding stop_tracing
  stop_tracing-collected c agents s h e = ground arith

  -- The calls of StopTracing, in order: the markers, the stops, the stop of the controller agent,
  -- and the results of the agents that are left and of the controller agent.
  pub record Stopped (c : TracingController L) (agents : List A.Agent) (s : Log A)
      (rs : List A.TraceResult) (r : End) : Type 0 where
    pub left : List A.Agent
    pub marker_calls : List (Call A)
    pub stop_calls : List (Call A)
    pub result_calls : List (Call A)
    pub asked_for_markers : MarkerCalls A agents marker_calls
    pub asked_to_stop : StopCalls A agents stop_calls left
    pub asked_for_results : ResultCalls A (left ++ (c.controller_agent ∷ [])) result_calls rs
    pub order :
        r.2.1
        ≡ s.1
          ++ (marker_calls
              ++ (stop_calls ++ (call_stop c.controller_agent (some true) ∷ result_calls)))
    pub children : r.1.child_agents ≡ some left
    pub results : r.1.all_results ≡ some rs
    pub idle : r.1.trace_in_progress ≡ false

  -- What is known once the controller agent was stopped.
  stop_controller-Stopped :
      (c : TracingController L) (agents succ : List A.Agent) (s t : Log A) {rs : List A.TraceResult}
      {marks calls : List (Call A)}
      → c.trace_in_progress ≡ false
      → MarkerCalls A agents marks
      → StopCalls A agents calls succ
      → t.1 ≡ s.1 ++ (marks ++ calls)
      → (stop_controller L c agents succ t).0 ≡ collected rs
      → Stopped c agents s rs (stop_controller L c agents succ t)
  stop_controller-Stopped c agents succ s t {rs} {marks} {calls} idle asked_first asked before e =
      let (stopped, same) = stop_controller-collected c agents succ t e in
      let c2 : TracingController L = record c { child_agents = some (left_of agents succ) } in
      let t1 = (L.stop_agent_tracing c.controller_agent t).1 in
      let asked_results = left_of agents succ ++ (c.controller_agent ∷ []) in
      let r = collect_results L asked_results t1 in
      let (got, end) = with_results-collected c2 r (sym (ap (λ x. x.0) same) ∙ e) in
      let (result_calls, h, log) = collect_results-ResultCalls A asked_results t1 got in
      let left : left_of agents succ ≡ succ = left_of-StopCalls asked in
      subst (Stopped c agents s rs) (sym (same ∙ end)) (record {
        left = succ;
        marker_calls = marks;
        asked_for_markers = asked_first;
        stop_calls = calls;
        result_calls = result_calls;
        asked_to_stop = asked;
        asked_for_results =
            subst (λ xs. ResultCalls A (xs ++ (c.controller_agent ∷ [])) result_calls rs) left h;
        order =
            log
            ∙ ap (λ reply. (t.1 ++ (call_stop c.controller_agent reply ∷ [])) ++ result_calls)
                stopped
            ∙ append_assoc t.1 (call_stop c.controller_agent (some true) ∷ []) result_calls
            ∙ ap (λ xs. xs ++ (call_stop c.controller_agent (some true) ∷ result_calls)) before
            ∙ append_assoc s.1 (marks ++ calls)
                (call_stop c.controller_agent (some true) ∷ result_calls)
            ∙ ap (λ xs. s.1 ++ xs)
                (append_assoc marks calls
                  (call_stop c.controller_agent (some true) ∷ result_calls));
        children = ap some left;
        results = refl;
        idle = idle;
      })

  -- If StopTracing returns results, then every child agent was asked whether it supports a clock
  -- sync marker and got one if it replied True, then every child agent was asked to stop, then the
  -- controller agent was stopped, and then those that have stopped, the controller agent last, were
  -- asked for their results, once each and in order; no other of these methods was called. The
  -- child agents are then those that have stopped, the results are the ones that were not false,
  -- and no trace is in progress.
  pub stop_tracing-Stopped :
      (c : TracingController L) (agents : List A.Agent) (s : Log A) {rs : List A.TraceResult}
      → c.child_agents ≡ some agents
      → (stop_tracing L c s).0 ≡ collected rs
      → Stopped c agents s rs (stop_tracing L c s)
  stop_tracing-Stopped c agents s {rs} h e =
      let c1 : TracingController L = record c { trace_in_progress = false } in
      let children = stop_tracing-collected c agents s h e in
      let e1 = sym (ap (λ x. x.0) children) ∙ e in
      let (marked, succ, stopped, controller) = stop_children-collected c1 agents s e1 in
      let s1 = (issue_clock_sync_marker L agents s).1 in
      let (marks, asked_first, marks_log) = issue_clock_sync_marker-MarkerCalls A agents s marked in
      let (calls, asked, log) = stop_agents-StopCalls A agents s1 stopped in
      let before = log ∙ ap (λ xs. xs ++ calls) marks_log ∙ append_assoc s.1 marks calls in
      let done =
        stop_controller-Stopped c1 agents succ s (stop_agents L agents s1).1 refl asked_first asked
          before (sym (ap (λ x. x.0) controller) ∙ e1) in
      subst (Stopped c agents s rs) (sym (children ∙ controller)) (record {
        left = done.left;
        marker_calls = done.marker_calls;
        asked_for_markers = done.asked_for_markers;
        stop_calls = done.stop_calls;
        result_calls = done.result_calls;
        asked_to_stop = done.asked_to_stop;
        asked_for_results = done.asked_for_results;
        order = done.order;
        children = done.children;
        results = done.results;
        idle = done.idle;
      })
