-- ===== src/Systrace/Controller/Failed.antt =====
-- A failed start leaves the controller with a trace in progress.
use car_multimedia_android_a.Base.{◌≡◌, ap, ◌∙◌, true, none, some, arith, Option, List}
use car_multimedia_android_a.Systrace.Controller.{
  Agents, TracingController, failed, raised, start_agents, with_children, start_tracing,
  stop_tracing,
}

module _ (A : Agents) where
  with_children-failed :
      (c : TracingController A) (r : Option (List A.Agent) × A.State)
      → (with_children A c r).0 ≡ failed
      → ⊥
  with_children-failed c (none, s) e = cc
  with_children-failed c (some succ, s) e = cc

  failed_start :
      (c : TracingController A) (s : A.State)
      → (start_tracing A c s).0 ≡ failed
      → (start_tracing A c s).1 ≡ record c { trace_in_progress = true }
  unfolding start_tracing
  failed_start c s e =
      let s1 = (A.start_agent_tracing c.controller_agent c.controller_config s).1 in
      let children = start_agents A c.child_agents_with_config s1 in
      ground (arith, with_children-failed (record c { trace_in_progress = true }) children)

  start_raises :
      (c : TracingController A) (t : A.State)
      → c.trace_in_progress ≡ true
      → (start_tracing A c t).0 ≡ raised
  unfolding start_tracing
  start_raises c t e = ground arith

  stop_raises :
      (c : TracingController A) (t : A.State)
      → c.child_agents ≡ none
      → (stop_tracing A c t).0 ≡ raised
  unfolding stop_tracing
  stop_raises c t e = ground arith

  -- If StartTracing returns False on a controller that has no child agents yet, the next call of
  -- the controller fails, be it StartTracing, which raises as a trace is in progress, or
  -- StopTracing, which raises as there are no child agents.
  pub start_tracing-failed :
      (c : TracingController A) (s t : A.State)
      → c.child_agents ≡ none
      → (start_tracing A c s).0 ≡ failed
      → let c1 = (start_tracing A c s).1 in
        ((start_tracing A c1 t).0 ≡ raised) × ((stop_tracing A c1 t).0 ≡ raised)
  start_tracing-failed c s t h e =
      let c1 = (start_tracing A c s).1 in
      let same = failed_start c s e in
      (
        start_raises c1 t (ap (λ x. x.trace_in_progress) same),
        stop_raises c1 t (ap (λ x. x.child_agents) same ∙ h),
      )
