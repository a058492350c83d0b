-- ===== src/TraceEvent/Log/Broken.antt =====
-- A call of trace_enable that raises before it has kept a log file leaves tracing on without a log file.
use car_multimedia_android_a.Base.{
  ℕ, ◌≡◌, ap, ◌∙◌, Bool, true, false, none, arith, Option, String, List,
}
use car_multimedia_android_a.TraceEvent.Log.{
  Event, Caller, LogFile, default, other, named, file_object, State, raised, trace_enable,
  trace_flush, trace_disable,
}

module _ (Args : Type 0) (dumps : Event Args → List ℕ) (ident : ℕ → Option ℕ)
    (can_open : String → Bool) where
  raised_state :
      (c : Caller) (now : ℕ) (argv : Option Args) (program : String) (file : LogFile)
      (s : State Args dumps ident can_open)
      → s.enabled ≡ false
      → s.control_allowed ≡ true
      → (trace_enable Args dumps ident can_open c now argv program file s).0 ≡ raised
      → (trace_enable Args dumps ident can_open c now argv program file s).1
        ≡ record s { enabled = true }
  unfolding trace_enable
  raised_state c now argv program default s off allowed e = ground arith
  raised_state c now argv program other s off allowed e = ground arith
  raised_state c now argv program (named p) s off allowed e = ground arith
  raised_state c now argv program (file_object p) s off allowed e = ground arith

  -- If tracing is off and may be controlled, no log file is open, and trace_enable raises before it
  -- has kept a log file, then tracing counts as enabled all the same, and in that state each of
  -- trace_enable, trace_flush and trace_disable raises too.
  pub trace_enable-raised :
      (c : Caller) (now : ℕ) (argv : Option Args) (program : String) (file file' : LogFile)
      (s : State Args dumps ident can_open)
      → s.enabled ≡ false
      → s.control_allowed ≡ true
      → s.log_file ≡ none
      → (trace_enable Args dumps ident can_open c now argv program file s).0 ≡ raised
      → (trace_enable Args dumps ident can_open c now argv program file s).1.log_file ≡ none
      → let s' = (trace_enable Args dumps ident can_open c now argv program file s).1 in
        (s'.enabled ≡ true)
        × ((trace_enable Args dumps ident can_open c now argv program file' s').0 ≡ raised)
        × ((trace_flush Args dumps ident can_open s').0 ≡ raised)
        × ((trace_disable Args dumps ident can_open s').0 ≡ raised)
  trace_enable-raised c now argv program file file' s off allowed closed e kept =
      let same = raised_state c now argv program file s off allowed e in
      (
        ap (λ x. x.enabled) same,
        ap (λ x. (trace_enable Args dumps ident can_open c now argv program file' x).0) same
            ∙ again,
        ap (λ x. (trace_flush Args dumps ident can_open x).0) same ∙ flush_raises,
        ap (λ x. (trace_disable Args dumps ident can_open x).0) same ∙ disable_raises,
      )
    where
      again :
          (trace_enable Args dumps ident can_open c now argv program file'
            (record s { enabled = true })).0
          ≡ raised
      again = unfold trace_enable in ground arith

      flush_raises :
          (trace_flush Args dumps ident can_open (record s { enabled = true })).0 ≡ raised
      flush_raises = unfold trace_flush in ground (arith, closed)

      disable_raises :
          (trace_disable Args dumps ident can_open (record s { enabled = true })).0 ≡ raised
      disable_raises = unfold trace_disable in ground (arith, closed, allowed)
