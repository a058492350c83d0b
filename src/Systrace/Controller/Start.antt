-- ===== src/Systrace/Controller/Start.antt =====
-- What StartTracing has done when it returns True.
use car_multimedia_android_a.Base.{
  ◌≡◌, refl, ap, sym, subst, ◌∙◌, Bool, true, false, Option, none, some, List, [], ◌∷◌, ◌++◌,
  append_assoc, append-nil, Option-cases, inl, inr, arith,
}
use car_multimedia_android_a.Systrace.Controller.{
  Agents, AgentWithConfig, keep, TracingController, Ended, started, with_children, start_agents,
  start_tracing,
}
use car_multimedia_android_a.Systrace.Controller.Calls.{Call, Log, logged, call_start}

module _ (A : Agents) where
  abbrev L : Agents
  L = logged A

  abbrev End : Type 0
  End = Ended L × TracingController L × Log A

  -- Every agent is asked to start, with its config and in order, and those that reply True are
  -- kept.
  pub data StartCalls : List (AgentWithConfig L) → List (Call A) → List A.Agent → Type 0 where
    no_agents : StartCalls [] [] []
    starts :
        {a : AgentWithConfig L} {agents : List (AgentWithConfig L)} {succ : List A.Agent}
        {calls : List (Call A)}
        → StartCalls agents calls succ
        → StartCalls (a ∷ agents) (call_start a.agent a.config (some true) ∷ calls) (a.agent ∷ succ)
    does_not_start :
        {a : AgentWithConfig L} {agents : List (AgentWithConfig L)} {succ : List A.Agent}
        {calls : List (Call A)}
        → StartCalls agents calls succ
        → StartCalls (a ∷ agents) (call_start a.agent a.config (some false) ∷ calls) succ

  -- The state behind the start of one agent.
  abbrev after : AgentWithConfig L → Log A → Log A
  after a s = (L.start_agent_tracing a.agent a.config s).1

  start_agents-cons :
      (a : AgentWithConfig L) (agents : List (AgentWithConfig L)) (s : Log A) {succ : List A.Agent}
      → (start_agents L (a ∷ agents) s).0 ≡ some succ
      → (done : Bool) × ((A.start_agent_tracing a.agent a.config s.0).0 ≡ some done)
        × (rest : List A.Agent) × ((start_agents L agents (after a s)).0 ≡ some rest)
        × (keep L done a.agent (some rest) ≡ some succ)
        × ((start_agents L (a ∷ agents) s).1 ≡ (start_agents L agents (after a s)).1)
  unfolding start_agents
  start_agents-cons a agents s {succ} e =
      elim (Option-cases (A.start_agent_tracing a.agent a.config s.0).0) [
        | inl n ↦ absurd (ground arith)
        | inr (done, d) ↦ elim (Option-cases (start_agents L agents (after a s)).0) [
          | inl n ↦ absurd (ground arith)
          | inr (rest, r) ↦ (done, d, rest, r, ground arith, ground arith)
        ]
      ]

  StartCalls-cons :
      (a : AgentWithConfig L) (done : Bool) {agents : List (AgentWithConfig L)}
      {rest succ : List A.Agent} {calls : List (Call A)}
      → keep L done a.agent (some rest) ≡ some succ
      → StartCalls agents calls rest
      → StartCalls (a ∷ agents) (call_start a.agent a.config (some done) ∷ calls) succ
  StartCalls-cons a true {agents} {calls = calls} e h =
      subst (StartCalls (a ∷ agents) (call_start a.agent a.config (some true) ∷ calls)) (cc)
        (starts h)
  StartCalls-cons a false {agents} {calls = calls} e h =
      subst (StartCalls (a ∷ agents) (call_start a.agent a.config (some false) ∷ calls)) (cc)
        (does_not_start h)

  start_agents-nil :
      (s : Log A) {succ : List A.Agent}
      → (start_agents L [] s).0 ≡ some succ
      → ([] ≡ succ) × ((start_agents L [] s).1 ≡ s)
  unfolding start_agents
  start_agents-nil s e = (cc, refl)

  start_agents-StartCalls :
      (agents : List (AgentWithConfig L)) (s : Log A) {succ : List A.Agent}
      → (start_agents L agents s).0 ≡ some succ
      → (calls : List (Call A)) × StartCalls agents calls succ
        × ((start_agents L agents s).1.1 ≡ s.1 ++ calls)
  start_agents-StartCalls [] s e =
      let (none_left, same) = start_agents-nil s e in
      ([], subst (StartCalls [] []) none_left no_agents, ap (λ t. t.1) same ∙ sym (append-nil s.1))
  start_agents-StartCalls (a ∷ agents) s e =
      let (done, d, rest, r, k, same) = start_agents-cons a agents s e in
      let (calls, h, log) = start_agents-StartCalls agents (after a s) r in
      (
        call_start a.agent a.config (some done) ∷ calls,
        StartCalls-cons a done k h,
        ap (λ t. t.1) same
            ∙ log
            ∙ ap (λ reply. (s.1 ++ (call_start a.agent a.config reply ∷ [])) ++ calls) d
            ∙ append_assoc s.1 (call_start a.agent a.config (some done) ∷ []) calls,
      )

  -- The calls of StartTracing, in order: the start of the controller agent, and those of the
  -- configured agents.
  pub record Started (c : TracingController L) (s : Log A) (r : End) : Type 0 where
    pub succ : List A.Agent
    pub calls : List (Call A)
    pub asked_to_start : StartCalls c.child_agents_with_config calls succ
    pub order :
        r.2.1 ≡ s.1 ++ (call_start c.controller_agent c.controller_config (some true) ∷ calls)
    pub children : r.1.child_agents ≡ some succ
    pub was_idle : c.trace_in_progress ≡ false
    pub in_progress : r.1.trace_in_progress ≡ true

  with_children-started :
      (c : TracingController L) (r : Option (List A.Agent) × Log A)
      → (with_children L c r).0 ≡ started
      → (succ : List A.Agent) × (r.0 ≡ some succ)
        × (with_children L c r ≡ (started, record c { child_agents = some succ }, r.1))
  with_children-started c (none, s) e = absurd (cc)
  with_children-started c (some succ, s) e = (succ, refl, refl)

  start_tracing-started :
      (c : TracingController L) (s : Log A)
      → (start_tracing L c s).0 ≡ started
      → (c.trace_in_progress ≡ false)
        × ((A.start_agent_tracing c.controller_agent c.controller_config s.0).0 ≡ some true)
        × (start_tracing L c s
            ≡ with_children L
                (record c { trace_in_progress = true })
                (start_agents L c.child_agents_with_config
                  (L.start_agent_tracing c.controller_agent c.controller_config s).1))
  unfolding start_tracing
  start_tracing-started c s e = ground arith

  -- If StartTracing returns True, then no trace was in progress, the controller agent was started
  -- first and then every configured agent was asked to start, once each with its config and in
  -- order, and nothing else was called. The child agents are then those that have started, and a
  -- trace is in progress.
  pub start_tracing-Started :
      (c : TracingController L) (s : Log A)
      → (start_tracing L c s).0 ≡ started
      → Started c s (start_tracing L c s)
  start_tracing-Started c s e =
      let (idle, done, same) = start_tracing-started c s e in
      let c1 : TracingController L = record c { trace_in_progress = true } in
      let s1 = (L.start_agent_tracing c.controller_agent c.controller_config s).1 in
      let r = start_agents L c.child_agents_with_config s1 in
      let (succ, children, end) = with_children-started c1 r (sym (ap (λ x. x.0) same) ∙ e) in
      let (calls, h, log) = start_agents-StartCalls c.child_agents_with_config s1 children in
      subst (Started c s) (sym (same ∙ end)) (record {
        succ = succ;
        calls = calls;
        asked_to_start = h;
        order =
            log
            ∙ ap
                (λ reply.
                  (s.1 ++ (call_start c.controller_agent c.controller_config reply ∷ [])) ++ calls)
                done
            ∙ append_assoc s.1 (call_start c.controller_agent c.controller_config (some true) ∷ [])
                calls;
        children = refl;
        was_idle = idle;
        in_progress = refl;
      })
