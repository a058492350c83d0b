-- ===== src/TraceEvent/Log/Batches.antt =====
-- What adding an event and flushing do to the file and the events that are yet to be written.
use car_multimedia_android_a.Base.{
  ℕ, ◌≡◌, refl, ap, sym, subst, ◌∙◌, Bool, true, not, Option, none, some, List, [], ◌∷◌, ◌++◌,
  append_assoc, append-nil, String, eq_refl, if◌then◌else◌, ◌==◌, ==_iff, ◌⊎◌, inl, inr, arith,
  Bool-cases,
}
use car_multimedia_android_a.TraceEvent.Log.{
  Event, Tls, Caller, State, Ended, returned, tid_or_pid, join_events, batch, trace_flush, enter,
  add_trace_event, is_pid, write,
}

module _ (Args : Type 0) (dumps : Event Args → List ℕ) (ident : ℕ → Option ℕ)
    (can_open : String → Bool) (pid : ℕ) (p : String) where
  abbrev pub LogState : Type 0
  LogState = State Args dumps ident can_open

  abbrev pub End : Type 0
  End = Ended Args dumps ident can_open × LogState

  abbrev pub caller : ℕ → Caller
  caller t = record { pid = pid; thread = t }

  abbrev pub tid : ℕ → ℕ
  tid t = tid_or_pid Args dumps ident can_open (ident t) pid

  abbrev pub tls_of : ℕ → Tls
  tls_of t = record { pid = pid; tid = tid t }

  abbrev pub written : List (Event Args) → List ℕ
  written = join_events Args dumps ident can_open

  pub batch-written : (es : List (Event Args)) → batch Args dumps ident can_open es ≡ written es
  unfolding join_events
  batch-written [] = refl
  batch-written (e ∷ es) = refl

  pub written-append : (xs ys : List (Event Args)) → written (xs ++ ys) ≡ written xs ++ written ys
  unfolding join_events
  written-append [] ys = refl
  written-append (e ∷ es) ys =
      ap (λ r. b',' ∷ 10 ∷ (dumps e ++ r)) (written-append es ys)
      ∙ ap (λ r. b',' ∷ 10 ∷ r) (sym (append_assoc (dumps e) (written es) (written ys)))

  -- The event that a call of add_trace_event by the thread `t` adds.
  abbrev pub event_of : ℕ → String → ℕ → String → String → Option Args → Event Args
  event_of t ph ts category name args = record {
    ph = ph;
    category = category;
    pid = pid;
    tid = some (tid t);
    ts = ts;
    name = name;
    args = args;
  }

  -- Tracing to the file `p` in a process that has not forked.
  pub record IsTracing (s : LogState) : Type 0 where
    pub on : s.enabled ≡ true
    pub file : s.log_file ≡ some p
    pub allowed : s.control_allowed ≡ true
    pub entered : (s.atexit_registered_for_pid ≡ some pid) ⊎ (s.cur_events ≡ [])
    pub threads :
        (t : ℕ)
        → (s.tls t ≡ none)
          ⊎ ((s.tls t ≡ some (tls_of t)) × (s.atexit_registered_for_pid ≡ some pid))

  -- The file with the events that are yet to be written.
  abbrev pub text : LogState → List ℕ
  text s = s.files p ++ written s.cur_events

  enter-known :
      (t : ℕ) (s : LogState)
      → s.tls t ≡ some (tls_of t)
      → enter Args dumps ident can_open (caller t) s ≡ s
  unfolding enter
  enter-known t s e = ground (arith, ==_iff pid pid)

  -- The events that a new thread leaves are all of them.
  kept :
      (s : LogState)
      → (s.atexit_registered_for_pid ≡ some pid) ⊎ (s.cur_events ≡ [])
      → (if not (is_pid Args dumps ident can_open s.atexit_registered_for_pid pid)
          then []
          else s.cur_events)
        ≡ s.cur_events
  kept s (inl e) = ground (arith, ==_iff pid pid)
  kept s (inr e) = ground arith

  abbrev known_to : ℕ → LogState → ℕ → Option Tls
  known_to t s u = if t == u then some (tls_of t) else s.tls u

  enter-new :
      (t : ℕ) (s : LogState)
      → (s.atexit_registered_for_pid ≡ some pid) ⊎ (s.cur_events ≡ [])
      → s.tls t ≡ none
      → enter Args dumps ident can_open (caller t) s
        ≡ record s { tls = known_to t s; atexit_registered_for_pid = some pid }
  unfolding enter
  enter-new t s h n =
      opened
      ∙ ap
          (λ es. record s {
            tls = known_to t s;
            atexit_registered_for_pid = some pid;
            cur_events = es;
          })
          (kept s h)
    where
      opened : enter Args dumps ident can_open (caller t) s ≡ record s {
        tls = known_to t s;
        atexit_registered_for_pid = some pid;
        cur_events =
            if not (is_pid Args dumps ident can_open s.atexit_registered_for_pid pid)
            then []
            else s.cur_events;
      }
      opened = ground arith

  -- What add_trace_event leaves alone, and what it adds.
  pub record Added (e : Event Args) (s s' : LogState) : Type 0 where
    pub still : IsTracing s'
    pub files : s'.files ≡ s.files
    pub cur_events : s'.cur_events ≡ s.cur_events ++ (e ∷ [])

  -- Entering does nothing but to make the thread known.
  record Entered (t : ℕ) (s s' : LogState) : Type 0 where
    pub still : IsTracing s'
    pub files : s'.files ≡ s.files
    pub cur_events : s'.cur_events ≡ s.cur_events
    known : s'.tls t ≡ some (tls_of t)
    registered : s'.atexit_registered_for_pid ≡ some pid

  enter-Entered :
      (t : ℕ) (s : LogState)
      → IsTracing s
      → Entered t s (enter Args dumps ident can_open (caller t) s)
  enter-Entered t s h = elim (h.threads t) [
    | inr (e, r) ↦
        subst (Entered t s) (sym (enter-known t s e))
          (record { still = h; files = refl; cur_events = refl; known = e; registered = r })
    | inl n ↦ subst (Entered t s) (sym (enter-new t s h.entered n)) (record {
      still = record {
        on = h.on;
        file = h.file;
        allowed = h.allowed;
        entered = inl refl;
        threads = others;
      };
      files = refl;
      cur_events = refl;
      known = ground (arith, ==_iff t t);
      registered = refl;
    })
  ]
    where
      others :
          (u : ℕ)
          → (known_to t s u ≡ none)
            ⊎ ((known_to t s u ≡ some (tls_of u)) × (◌≡◌ {A = Option ℕ} (some pid) (some pid)))
      others u = elim (Bool-cases (t == u)) [
        | inl same ↦ inr (ground (arith, ==_iff t u), refl)
        | inr apart ↦ rw apart (elim (h.threads u) [ inl n ↦ inl n | inr (e, _) ↦ inr (e, refl) ])
      ]

  add_trace_event_known :
      (t : ℕ) (ph : String) (ts : ℕ) (category name : String) (args : Option Args) (s : LogState)
      → s.enabled ≡ true
      → let s1 = enter Args dumps ident can_open (caller t) s in
        s1.tls t ≡ some (tls_of t)
        → add_trace_event Args dumps ident can_open (caller t) ph ts category name args s
          ≡ record s1 { cur_events = s1.cur_events ++ (event_of t ph ts category name args ∷ []) }
  unfolding add_trace_event
  add_trace_event_known t ph ts category name args s on known = ground arith

  pub add_trace_event-Added :
      (t : ℕ) (ph : String) (ts : ℕ) (category name : String) (args : Option Args) (s : LogState)
      → IsTracing s
      → Added
          (event_of t ph ts category name args)
          s
          (add_trace_event Args dumps ident can_open (caller t) ph ts category name args s)
  add_trace_event-Added t ph ts category name args s h =
      let s1 = enter Args dumps ident can_open (caller t) s in
      let n = enter-Entered t s h in
      subst (Added (event_of t ph ts category name args) s)
        (sym (add_trace_event_known t ph ts category name args s h.on n.known))
        (record {
          still = record {
            on = n.still.on;
            file = n.still.file;
            allowed = n.still.allowed;
            entered = inl n.registered;
            threads = n.still.threads;
          };
          files = n.files;
          cur_events = ap (λ es. es ++ (event_of t ph ts category name args ∷ [])) n.cur_events;
        })

  pub text-add :
      (e : Event Args) (s s' : LogState) → Added e s s' → text s' ≡ text s ++ written (e ∷ [])
  text-add e s s' h =
      ap (λ f. f p ++ written s'.cur_events) h.files
      ∙ ap (λ es. s.files p ++ written es) h.cur_events
      ∙ ap (λ r. s.files p ++ r) (written-append s.cur_events (e ∷ []))
      ∙ sym (append_assoc (s.files p) (written s.cur_events) (written (e ∷ [])))

  -- What a flush that does not close leaves.
  pub record Flushed (s : LogState) (r : End) : Type 0 where
    pub fine : r.0 ≡ returned
    pub still : IsTracing r.1
    pub same_text : text r.1 ≡ text s

  flushed : LogState → LogState
  flushed s =
      record (write Args dumps ident can_open p (batch Args dumps ident can_open s.cur_events) s) {
        cur_events = [];
        log_file = some p;
      }

  trace_flush-flushed :
      (s : LogState) → IsTracing s → trace_flush Args dumps ident can_open s ≡ (returned, flushed s)
  unfolding trace_flush flushed
  trace_flush-flushed s h = ground (arith, h.on, h.file)

  pub written-nil : (xs : List ℕ) → xs ++ written [] ≡ xs
  unfolding join_events
  written-nil xs = append-nil xs

  text-flushed : (s : LogState) → text (flushed s) ≡ text s
  unfolding flushed
  text-flushed s =
      written-nil ((flushed s).files p)
      ∙ rw eq_refl (ap (λ r. s.files p ++ r) (batch-written s.cur_events))

  pub trace_flush-Flushed :
      (s : LogState) → IsTracing s → Flushed s (trace_flush Args dumps ident can_open s)
  unfolding flushed
  trace_flush-Flushed s h = subst (Flushed s) (sym (trace_flush-flushed s h)) (record {
    fine = refl;
    still = record {
      on = h.on;
      file = refl;
      allowed = h.allowed;
      entered = inr refl;
      threads = h.threads;
    };
    same_text = text-flushed s;
  })
