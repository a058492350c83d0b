-- ===== src/TraceEvent/Log/Session.antt =====
-- When events are flushed cannot be told from the log file.
use car_multimedia_android_a.Base.{
  ℕ, ◌≡◌, refl, ap, sym, subst, ◌∙◌, Bool, true, false, Option, none, List, [], ◌∷◌, ◌++◌,
  append_assoc, String, eq_refl, is_empty, if◌then◌else◌, inl, inr, arith, Bool-cases,
}
use car_multimedia_android_a.TraceEvent.Log.{
  Event, Caller, named, State, returned, process_argv, open_log, trace_enable, join_events, batch,
  trace_flush, trace_disable, add_trace_event, write,
}
use car_multimedia_android_a.TraceEvent.Log.Batches

module _ (Args : Type 0) (dumps : Event Args → List ℕ) (ident : ℕ → Option ℕ)
    (can_open : String → Bool) (pid : ℕ) (p : String) where
  abbrev LogState : Type 0
  LogState = State Args dumps ident can_open

  abbrev IsTracing : LogState → Type 0
  IsTracing = Batches.IsTracing Args dumps ident can_open pid p

  abbrev text : LogState → List ℕ
  text = Batches.text Args dumps ident can_open pid p

  abbrev caller : ℕ → Caller
  caller t = record { pid = pid; thread = t }

  -- What is written for events: each of them behind a comma and a line break.
  abbrev pub written : List (Event Args) → List ℕ
  written = join_events Args dumps ident can_open

  abbrev pub new_event : ℕ → String → ℕ → String → String → Option Args → Event Args
  new_event = Batches.event_of Args dumps ident can_open pid p

  -- A call, by a thread, between trace_enable and trace_disable.
  pub data Command : Type 0 where
    add : ℕ → String → ℕ → String → String → Option Args → Command
    flush_now : Command

  unfoldable pub run : List Command → LogState → LogState
  run [] s = s
  run (add t ph ts category name args ∷ cs) s =
      run cs (add_trace_event Args dumps ident can_open (caller t) ph ts category name args s)
  run (flush_now ∷ cs) s = run cs (trace_flush Args dumps ident can_open s).1

  -- The events that the calls add, in order.
  abbrev pub events : List Command → List (Event Args)
  events [] = []
  events (add t ph ts category name args ∷ cs) = new_event t ph ts category name args ∷ events cs
  events (flush_now ∷ cs) = events cs

  written-append : (xs ys : List (Event Args)) → written (xs ++ ys) ≡ written xs ++ written ys
  written-append = Batches.written-append Args dumps ident can_open pid p

  add_text :
      (t : ℕ) (ph : String) (ts : ℕ) (category name : String) (args : Option Args) (s : LogState)
      → IsTracing s
      → let s' = add_trace_event Args dumps ident can_open (caller t) ph ts category name args s in
        IsTracing s' × (text s' ≡ text s ++ written (new_event t ph ts category name args ∷ []))
  add_text t ph ts category name args s h =
      let added =
        Batches.add_trace_event-Added Args dumps ident can_open pid p t ph ts category name args s
          h in
      (
        added.still,
        Batches.text-add Args dumps ident can_open pid p (new_event t ph ts category name args) s _
            added,
      )

  run-text :
      (cs : List Command) (s : LogState)
      → IsTracing s
      → IsTracing (run cs s) × (text (run cs s) ≡ text s ++ written (events cs))
  unfolding run
  run-text [] s h = (h, sym (Batches.written-nil Args dumps ident can_open pid p (text s)))
  run-text (add t ph ts category name args ∷ cs) s h =
      let e = new_event t ph ts category name args in
      let (still, more) = add_text t ph ts category name args s h in
      let (end, rest) = run-text cs _ still in
      (
        end,
        rest
            ∙ ap (λ x. x ++ written (events cs)) more
            ∙ append_assoc (text s) (written (e ∷ [])) (written (events cs))
            ∙ ap (λ x. text s ++ x) (sym (written-append (e ∷ []) (events cs))),
      )
  run-text (flush_now ∷ cs) s h =
      let f = Batches.trace_flush-Flushed Args dumps ident can_open pid p s h in
      let (end, rest) = run-text cs _ f.still in
      (end, rest ∙ ap (λ x. x ++ written (events cs)) f.same_text)

  -- What trace_disable leaves.
  disabled : LogState → LogState
  disabled s =
      record (write Args dumps ident can_open p (batch Args dumps ident can_open s.cur_events)
        (record s { enabled = false })) { cur_events = []; log_file = none }

  trace_disable_tracing :
      (s : LogState)
      → IsTracing s
      → trace_disable Args dumps ident can_open s ≡ (returned, disabled s)
  unfolding trace_disable disabled
  trace_disable_tracing s h = ground (arith, h.on, h.file, h.allowed)

  text-disabled : (s : LogState) → (disabled s).files p ≡ text s
  unfolding disabled
  text-disabled s = rw eq_refl (
      ap (λ r. s.files p ++ r) (Batches.batch-written Args dumps ident can_open pid p s.cur_events))

  -- The start of a log file that is new.
  abbrev pub header : Caller → ℕ → Option Args → List ℕ
  header c now argv =
      b'[' ∷ (dumps (process_argv Args dumps ident can_open c now argv) ++ (10 ∷ []))

  -- What the file holds once it is opened.
  abbrev pub opened : Caller → ℕ → Option Args → List ℕ → List ℕ
  opened c now argv old = if is_empty old then old ++ header c now argv else old

  module _ (t now : ℕ) (argv : Option Args) (program : String) (s : LogState)
      (no_events : s.cur_events ≡ []) (no_threads : (u : ℕ) → s.tls u ≡ none)
      (enabled : (trace_enable Args dumps ident can_open (caller t) now argv program (named p) s).0
        ≡ returned) where
    abbrev begun : LogState
    begun = (trace_enable Args dumps ident can_open (caller t) now argv program (named p) s).1

    begun_open :
        (s.control_allowed ≡ true)
        × (begun
            ≡ open_log Args dumps ident can_open
                (caller t)
                now
                argv
                p
                (record s { enabled = true }))
    unfolding trace_enable
    begun_open = ground (arith, enabled)

    open_log-text :
        let s1 =
          open_log Args dumps ident can_open (caller t) now argv p (record s { enabled = true }) in
        IsTracing s1 × (text s1 ≡ opened (caller t) now argv (s.files p))
    unfolding open_log
    open_log-text = elim (Bool-cases (is_empty (s.files p))) [
      | inl new ↦ rw new (
        record {
          on = refl;
          file = refl;
          allowed = begun_open.0;
          entered = inr no_events;
          threads = λ u. inl (no_threads u);
        },
        rw (no_events, eq_refl) (Batches.written-nil Args dumps ident can_open pid p _),
      )
      | inr old ↦ rw old (
        record {
          on = refl;
          file = refl;
          allowed = begun_open.0;
          entered = inr no_events;
          threads = λ u. inl (no_threads u);
        },
        rw no_events (Batches.written-nil Args dumps ident can_open pid p _),
      )
    ]

    -- If trace_enable has opened a file in a process that has traced nothing yet, then after any
    -- calls of add_trace_event and trace_flush by any threads trace_disable returns, and the file
    -- holds what it held, with the header if it was new, and all the events in the order of the
    -- calls, each once, however they were flushed. Tracing is off then, and nothing is pending.
    pub trace_disable-run :
        (cs : List Command)
        → let r = trace_disable Args dumps ident can_open (run cs begun) in
          (r.0 ≡ returned)
          × (r.1.enabled ≡ false)
          × (r.1.cur_events ≡ [])
          × (r.1.log_file ≡ none)
          × (r.1.files p ≡ opened (caller t) now argv (s.files p) ++ written (events cs))
    unfolding disabled
    trace_disable-run cs =
        let first =
          subst (λ x. IsTracing x × (text x ≡ opened (caller t) now argv (s.files p)))
            (sym begun_open.1) open_log-text in
        let (still, all) = run-text cs begun first.0 in
        let end = trace_disable_tracing (run cs begun) still in
        (
          ap (λ x. x.0) end,
          ap (λ x. x.1.enabled) end,
          ap (λ x. x.1.cur_events) end,
          ap (λ x. x.1.log_file) end,
          ap (λ x. x.1.files p) end
              ∙ text-disabled (run cs begun)
              ∙ all
              ∙ ap (λ x. x ++ written (events cs)) first.1,
        )
