-- ===== src/Systrace/Controller/Calls.antt =====
-- The calls that a tracing controller makes, seen through agents that write each of them down.
use car_multimedia_android_a.Base.{
  ◌≡◌, refl, ap, sym, subst, ◌∙◌, Bool, true, false, Option, none, some, List, [], ◌∷◌, ◌++◌,
  append_assoc, append-nil, Bool-cases, Option-cases, inl, inr, arith,
}
use car_multimedia_android_a.Systrace.Controller.{
  Agents, keep, issue_clock_sync_marker, stop_agents, add_result, collect_results,
}

module _ (A : Agents) where
  -- A call with its reply.
  pub data Call : Type 0 where
    call_start : A.Agent → A.Config → Option Bool → Call
    call_stop : A.Agent → Option Bool → Call
    call_results : A.Agent → Option (Option A.TraceResult) → Call
    call_supports : A.Agent → Option Bool → Call
    call_marker : A.Agent → Bool → Call

  abbrev pub Log : Type 0
  Log = A.State × List Call

  abbrev pub write : {R : Type 0} → (R → Call) → R × A.State → List Call → R × Log
  write call (r, s) log = (r, (s, log ++ (call r ∷ [])))

  -- The agents, where the state also holds the calls so far.
  abbrev pub logged : Agents
  logged = record {
    State = Log;
    Agent = A.Agent;
    Config = A.Config;
    TraceResult = A.TraceResult;
    start_agent_tracing =
        λ a config s. write (call_start a config) (A.start_agent_tracing a config s.0) s.1;
    stop_agent_tracing = λ a s. write (call_stop a) (A.stop_agent_tracing a s.0) s.1;
    get_results = λ a s. write (call_results a) (A.get_results a s.0) s.1;
    supports_explicit_clock_sync =
        λ a s. write (call_supports a) (A.supports_explicit_clock_sync a s.0) s.1;
    record_clock_sync_marker = λ a s. write (call_marker a) (A.record_clock_sync_marker a s.0) s.1;
  }

  -- Every agent is asked, in order, whether it supports a marker, and gets one if it replies True.
  pub data MarkerCalls : List A.Agent → List Call → Type 0 where
    no_markers : MarkerCalls [] []
    gets_marker :
        {a : A.Agent} {agents : List A.Agent} {calls : List Call}
        → MarkerCalls agents calls
        → MarkerCalls (a ∷ agents) (call_supports a (some true) ∷ call_marker a true ∷ calls)
    gets_none :
        {a : A.Agent} {agents : List A.Agent} {calls : List Call}
        → MarkerCalls agents calls
        → MarkerCalls (a ∷ agents) (call_supports a (some false) ∷ calls)

  -- Every agent is asked to stop, in order, and those that reply True are kept.
  pub data StopCalls : List A.Agent → List Call → List A.Agent → Type 0 where
    no_agents : StopCalls [] [] []
    stops :
        {a : A.Agent} {agents succ : List A.Agent} {calls : List Call}
        → StopCalls agents calls succ
        → StopCalls (a ∷ agents) (call_stop a (some true) ∷ calls) (a ∷ succ)
    does_not_stop :
        {a : A.Agent} {agents succ : List A.Agent} {calls : List Call}
        → StopCalls agents calls succ
        → StopCalls (a ∷ agents) (call_stop a (some false) ∷ calls) succ

  -- Every agent is asked for its result, in order, and the results that are not false are kept.
  pub data ResultCalls : List A.Agent → List Call → List A.TraceResult → Type 0 where
    no_results : ResultCalls [] [] []
    gives :
        {a : A.Agent} {r : A.TraceResult} {agents : List A.Agent} {calls : List Call}
        {rs : List A.TraceResult}
        → ResultCalls agents calls rs
        → ResultCalls (a ∷ agents) (call_results a (some (some r)) ∷ calls) (r ∷ rs)
    gives_nothing :
        {a : A.Agent} {agents : List A.Agent} {calls : List Call} {rs : List A.TraceResult}
        → ResultCalls agents calls rs
        → ResultCalls (a ∷ agents) (call_results a (some none) ∷ calls) rs

  -- The state behind the question whether an agent supports a marker, and behind the marker
  abbrev asked : A.Agent → Bool → Log → Log
  asked a b s = ((A.supports_explicit_clock_sync a s.0).1, s.1 ++ (call_supports a (some b) ∷ []))

  abbrev marked : A.Agent → Log → Log
  marked a s = ((A.record_clock_sync_marker a s.0).1, s.1 ++ (call_marker a true ∷ []))

  -- What a loop over the markers that raises nothing has done at the first agent
  data FirstMarker (a : A.Agent) (agents : List A.Agent) (s : Log) : Type 0 where
    with_marker :
        (issue_clock_sync_marker logged (a ∷ agents) s
          ≡ issue_clock_sync_marker logged agents (marked a (asked a true s)))
        → FirstMarker a agents s
    without_marker :
        (issue_clock_sync_marker logged (a ∷ agents) s
          ≡ issue_clock_sync_marker logged agents (asked a false s))
        → FirstMarker a agents s

  issue_clock_sync_marker-FirstMarker :
      (a : A.Agent) (agents : List A.Agent) (s : Log)
      → (issue_clock_sync_marker logged (a ∷ agents) s).0 ≡ true
      → FirstMarker a agents s
  unfolding issue_clock_sync_marker
  issue_clock_sync_marker-FirstMarker a agents s e =
      elim (Option-cases (A.supports_explicit_clock_sync a s.0).0) [
        | inl n ↦ absurd (ground arith)
        | inr (b, h) ↦ elim (Bool-cases b) [
          | inr other ↦ without_marker (ground arith)
          | inl supports ↦ elim (Bool-cases (A.record_clock_sync_marker a (asked a true s).0).0) [
            | inr bad ↦ absurd (ground arith)
            | inl done ↦ with_marker (ground arith)
          ]
        ]
      ]

  issue_clock_sync_marker-nil : (s : Log) → issue_clock_sync_marker logged [] s ≡ (true, s)
  unfolding issue_clock_sync_marker
  issue_clock_sync_marker-nil s = refl

  pub issue_clock_sync_marker-MarkerCalls :
      (agents : List A.Agent) (s : Log)
      → (issue_clock_sync_marker logged agents s).0 ≡ true
      → (calls : List Call) × MarkerCalls agents calls
        × ((issue_clock_sync_marker logged agents s).1.1 ≡ s.1 ++ calls)
  issue_clock_sync_marker-MarkerCalls [] s e =
      ([], no_markers, ap (λ r. r.1.1) (issue_clock_sync_marker-nil s) ∙ sym (append-nil s.1))
  issue_clock_sync_marker-MarkerCalls (a ∷ agents) s e =
      elim (issue_clock_sync_marker-FirstMarker a agents s e) [
        | with_marker same ↦
            let (calls, h, log) =
              issue_clock_sync_marker-MarkerCalls agents (marked a (asked a true s))
                (sym (ap (λ r. r.0) same) ∙ e) in
            (
              call_supports a (some true) ∷ call_marker a true ∷ calls,
              gets_marker h,
              ap (λ r. r.1.1) same
                  ∙ log
                  ∙ append_assoc (s.1 ++ (call_supports a (some true) ∷ []))
                      (call_marker a true ∷ []) calls
                  ∙ append_assoc s.1 (call_supports a (some true) ∷ [])
                      (call_marker a true ∷ calls),
            )
        | without_marker same ↦
            let (calls, h, log) =
              issue_clock_sync_marker-MarkerCalls agents (asked a false s)
                (sym (ap (λ r. r.0) same) ∙ e) in
            (
              call_supports a (some false) ∷ calls,
              gets_none h,
              ap (λ r. r.1.1) same
                  ∙ log
                  ∙ append_assoc s.1 (call_supports a (some false) ∷ []) calls,
            )
      ]

  stop_agents-cons :
      (a : A.Agent) (agents : List A.Agent) (s : Log) {succ : List A.Agent}
      → (stop_agents logged (a ∷ agents) s).0 ≡ some succ
      → let s1 : Log = (
        (A.stop_agent_tracing a s.0).1,
        s.1 ++ (call_stop a (A.stop_agent_tracing a s.0).0 ∷ []),
      ) in
        (done : Bool) × ((A.stop_agent_tracing a s.0).0 ≡ some done)
        × (rest : List A.Agent) × ((stop_agents logged agents s1).0 ≡ some rest)
        × (keep logged done a (some rest) ≡ some succ)
        × ((stop_agents logged (a ∷ agents) s).1 ≡ (stop_agents logged agents s1).1)
  unfolding stop_agents
  stop_agents-cons a agents s {succ} e =
      let s1 : Log = (
        (A.stop_agent_tracing a s.0).1,
        s.1 ++ (call_stop a (A.stop_agent_tracing a s.0).0 ∷ []),
      ) in
      elim (Option-cases (A.stop_agent_tracing a s.0).0) [
        | inl n ↦ absurd (ground arith)
        | inr (done, d) ↦ elim (Option-cases (stop_agents logged agents s1).0) [
          | inl n ↦ absurd (ground arith)
          | inr (rest, r) ↦ (done, d, rest, r, ground arith, ground arith)
        ]
      ]

  -- One agent in front of the calls to the others.
  StopCalls-cons :
      (a : A.Agent) (done : Bool) {agents rest succ : List A.Agent} {calls : List Call}
      → keep logged done a (some rest) ≡ some succ
      → StopCalls agents calls rest
      → StopCalls (a ∷ agents) (call_stop a (some done) ∷ calls) succ
  StopCalls-cons a true {agents} {calls = calls} e h =
      subst (StopCalls (a ∷ agents) (call_stop a (some true) ∷ calls)) (cc) (stops h)
  StopCalls-cons a false {agents} {calls = calls} e h =
      subst (StopCalls (a ∷ agents) (call_stop a (some false) ∷ calls)) (cc) (does_not_stop h)

  stop_agents-nil :
      (s : Log) {succ : List A.Agent}
      → (stop_agents logged [] s).0 ≡ some succ
      → ([] ≡ succ) × ((stop_agents logged [] s).1 ≡ s)
  unfolding stop_agents
  stop_agents-nil s e = (cc, refl)

  pub stop_agents-StopCalls :
      (agents : List A.Agent) (s : Log) {succ : List A.Agent}
      → (stop_agents logged agents s).0 ≡ some succ
      → (calls : List Call) × StopCalls agents calls succ
        × ((stop_agents logged agents s).1.1 ≡ s.1 ++ calls)
  stop_agents-StopCalls [] s e =
      let (none_left, same) = stop_agents-nil s e in
      ([], subst (StopCalls [] []) none_left no_agents, ap (λ t. t.1) same ∙ sym (append-nil s.1))
  stop_agents-StopCalls (a ∷ agents) s e =
      let (done, d, rest, r, k, same) = stop_agents-cons a agents s e in
      let s1 : Log = (
        (A.stop_agent_tracing a s.0).1,
        s.1 ++ (call_stop a (A.stop_agent_tracing a s.0).0 ∷ []),
      ) in
      let (calls, h, log) = stop_agents-StopCalls agents s1 r in
      (
        call_stop a (some done) ∷ calls,
        StopCalls-cons a done k h,
        ap (λ t. t.1) same
            ∙ log
            ∙ ap (λ reply. (s.1 ++ (call_stop a reply ∷ [])) ++ calls) d
            ∙ append_assoc s.1 (call_stop a (some done) ∷ []) calls,
      )

  add_result-none : (r : Option A.TraceResult) → add_result logged r none ≡ none
  add_result-none none = refl
  add_result-none (some r) = refl

  collect_results-cons :
      (a : A.Agent) (agents : List A.Agent) (s : Log) {rs : List A.TraceResult}
      → (collect_results logged (a ∷ agents) s).0 ≡ some rs
      → let s1 : Log =
          ((A.get_results a s.0).1, s.1 ++ (call_results a (A.get_results a s.0).0 ∷ [])) in
        (r : Option A.TraceResult) × ((A.get_results a s.0).0 ≡ some r)
        × (rest : List A.TraceResult) × ((collect_results logged agents s1).0 ≡ some rest)
        × (add_result logged r (some rest) ≡ some rs)
        × ((collect_results logged (a ∷ agents) s).1 ≡ (collect_results logged agents s1).1)
  unfolding collect_results
  collect_results-cons a agents s {rs} e =
      let s1 : Log =
        ((A.get_results a s.0).1, s.1 ++ (call_results a (A.get_results a s.0).0 ∷ [])) in
      elim (Option-cases (A.get_results a s.0).0) [
        | inl n ↦ absurd (ground arith)
        | inr (r, d) ↦ elim (Option-cases (collect_results logged agents s1).0) [
          | inl n ↦ absurd (ground (arith, add_result-none r))
          | inr (rest, e2) ↦ (r, d, rest, e2, ground arith, ground arith)
        ]
      ]

  ResultCalls-cons :
      (a : A.Agent) (r : Option A.TraceResult) {agents : List A.Agent}
      {rest rs : List A.TraceResult} {calls : List Call}
      → add_result logged r (some rest) ≡ some rs
      → ResultCalls agents calls rest
      → ResultCalls (a ∷ agents) (call_results a (some r) ∷ calls) rs
  ResultCalls-cons a (some r) {agents} {calls = calls} e h =
      subst (ResultCalls (a ∷ agents) (call_results a (some (some r)) ∷ calls)) (cc) (gives h)
  ResultCalls-cons a none {agents} {calls = calls} e h =
      subst (ResultCalls (a ∷ agents) (call_results a (some none) ∷ calls)) (cc) (gives_nothing h)

  collect_results-nil :
      (s : Log) {rs : List A.TraceResult}
      → (collect_results logged [] s).0 ≡ some rs
      → ([] ≡ rs) × ((collect_results logged [] s).1 ≡ s)
  unfolding collect_results
  collect_results-nil s e = (cc, refl)

  pub collect_results-ResultCalls :
      (agents : List A.Agent) (s : Log) {rs : List A.TraceResult}
      → (collect_results logged agents s).0 ≡ some rs
      → (calls : List Call) × ResultCalls agents calls rs
        × ((collect_results logged agents s).1.1 ≡ s.1 ++ calls)
  collect_results-ResultCalls [] s e =
      let (none_left, same) = collect_results-nil s e in
      (
        [],
        subst (ResultCalls [] []) none_left no_results,
        ap (λ t. t.1) same ∙ sym (append-nil s.1),
      )
  collect_results-ResultCalls (a ∷ agents) s e =
      let (r, d, rest, e2, k, same) = collect_results-cons a agents s e in
      let s1 : Log =
        ((A.get_results a s.0).1, s.1 ++ (call_results a (A.get_results a s.0).0 ∷ [])) in
      let (calls, h, log) = collect_results-ResultCalls agents s1 e2 in
      (
        call_results a (some r) ∷ calls,
        ResultCalls-cons a r k h,
        ap (λ t. t.1) same
            ∙ log
            ∙ ap (λ reply. (s.1 ++ (call_results a reply ∷ [])) ++ calls) d
            ∙ append_assoc s.1 (call_results a (some r) ∷ []) calls,
      )
