-- ===== src/PyUtils/WaitFor/Outcome.antt =====
-- A wait ends, not before its time unless the condition is met, and it sees a condition that is
-- met in time.
use car_multimedia_android_a.Base.{
  ℕ, zero, suc, ◌+◌, ◌-◌, ◌*◌, ◌/◌, ◌≤◌, ◌<◌, ◌≡◌, refl, sym, ap, subst, ◌∙◌, ◌⊎◌, ◌≢◌, inl, inr,
  true, Option, none, some, ltb, arith, is_some, Option-cases, Bool-cases,
}
use car_multimedia_android_a.PyUtils.Clock.{Clock, IsLawful}
use car_multimedia_android_a.PyUtils.WaitFor.{
  Waited, met, timed_out, poll_interval, wait_loop, wait_for,
}

poll_interval_min : (elapsed : ℕ) → 1000 ≤ poll_interval elapsed
unfolding poll_interval
poll_interval_min elapsed = ground arith

module _ (C : Clock) {V : Type 0} (condition : C.State → Option V × C.State) (timeout : ℕ)
    (L : IsLawful C) (forward : (s : C.State) → C.time s ≤ C.time (condition s).1) where
  -- The time at which the wait is over: from its first check on.
  abbrev pub deadline : C.State → ℕ
  deadline s = C.time (condition s).1 + timeout

  -- It ends with an answer of the condition, or else at the deadline or later.
  abbrev pub Ends : Option (Waited V) × C.State → ℕ → Type 0
  Ends r t = ((v : V) × (r.0 ≡ some (met v))) ⊎ ((r.0 ≡ some timed_out) × (t ≤ C.time r.1))

  sleep_ahead :
      (elapsed : ℕ) (s : C.State) → C.time s + 100 ≤ C.time (C.sleep (poll_interval elapsed) s)
  sleep_ahead elapsed s =
      ground (arith, L.time-sleep (poll_interval elapsed) s, poll_interval_min elapsed)

  wait_loop-over :
      (n start elapsed : ℕ) (s : C.State)
      → timeout ≤ elapsed
      → start + elapsed ≤ C.time s
      → Ends (wait_loop C condition timeout (suc n) start elapsed s) (start + timeout)
  unfolding wait_loop
  wait_loop-over n start elapsed s p q = inr (ground arith, ground arith)

  wait_loop-met :
      (n start elapsed : ℕ) (s : C.State) (v : V)
      → elapsed < timeout
      → (condition s).0 ≡ some v
      → wait_loop C condition timeout (suc n) start elapsed s ≡ (some (met v), (condition s).1)
  unfolding wait_loop
  wait_loop-met n start elapsed s v p q = ground arith

  abbrev slept : ℕ → C.State → C.State
  slept start s = C.sleep (poll_interval (C.time (condition s).1 - start)) (condition s).1

  wait_loop-again :
      (n start elapsed : ℕ) (s : C.State)
      → elapsed < timeout
      → (condition s).0 ≡ none
      → wait_loop C condition timeout (suc n) start elapsed s
        ≡ wait_loop C condition timeout n start (C.time (condition s).1 - start) (slept start s)
  unfolding wait_loop
  wait_loop-again n start elapsed s p q = ground arith

  slept_ahead : (start : ℕ) (s : C.State) → C.time s + 100 ≤ C.time (slept start s)
  slept_ahead start s =
      ground (arith, forward s, sleep_ahead (C.time (condition s).1 - start) (condition s).1)

  spent_fits :
      (start elapsed : ℕ) (s : C.State)
      → start + elapsed ≤ C.time s
      → start + (C.time (condition s).1 - start) ≤ C.time (slept start s)
  spent_fits start elapsed s p =
      ground (arith, forward s, sleep_ahead (C.time (condition s).1 - start) (condition s).1)

  -- A round decides the wait, or leaves it to the rounds that follow.
  one_round :
      (n start elapsed : ℕ) (s : C.State)
      → start + elapsed ≤ C.time s
      → Ends
          (wait_loop C condition timeout n start (C.time (condition s).1 - start) (slept start s))
          (start + timeout)
      → Ends (wait_loop C condition timeout (suc n) start elapsed s) (start + timeout)
  one_round n start elapsed s p next = elim (Bool-cases (ltb elapsed timeout)) [
    | inr over ↦ wait_loop-over n start elapsed s (ground arith) p
    | inl within ↦ elim (Option-cases (condition s).0) [
      | inr (v, h) ↦ inl (v, ap (λ r. r.0) (wait_loop-met n start elapsed s v (ground arith) h))
      | inl h ↦
          subst (λ r. Ends r (start + timeout))
            (sym (wait_loop-again n start elapsed s (ground arith) h)) next
    ]
  ]

  -- Two rounds, and one for each tenth of a second that is left, are enough.
  wait_loop-Ends :
      (m start elapsed : ℕ) (s : C.State)
      → start + elapsed ≤ C.time s
      → start + timeout ≤ C.time s + 100 * m
      → Ends (wait_loop C condition timeout (suc (suc m)) start elapsed s) (start + timeout)
  wait_loop-Ends zero start elapsed s p q =
      let ahead = forward s in
      one_round (suc zero) start elapsed s p (
        wait_loop-over zero start (C.time (condition s).1 - start) (slept start s) (omega arith)
          (spent_fits start elapsed s p))
  wait_loop-Ends (suc m) start elapsed s p q =
      let ahead = slept_ahead start s in
      one_round (suc (suc m)) start elapsed s p (
        wait_loop-Ends m start (C.time (condition s).1 - start) (slept start s)
          (spent_fits start elapsed s p) (omega arith))

  wait_for-met :
      (s : C.State) (v : V)
      → (condition s).0 ≡ some v
      → wait_for C condition timeout s ≡ (some (met v), (condition s).1)
  unfolding wait_for
  wait_for-met s v p = ground arith

  wait_for-waits :
      (s : C.State)
      → (condition s).0 ≡ none
      → wait_for C condition timeout s
        ≡ wait_loop C condition timeout
            (suc (suc (timeout / 100 + 1)))
            (C.time (condition s).1)
            0
            (condition s).1
  unfolding wait_for
  wait_for-waits s p = ground arith

  -- On a clock that goes forward, where a sleep takes at least its time, WaitFor always ends: with
  -- an answer of the condition, or with a TimeoutException at the deadline or later, which is the
  -- timeout after the end of the first check.
  pub wait_for-Ends : (s : C.State) → Ends (wait_for C condition timeout s) (deadline s)
  wait_for-Ends s = elim (Option-cases (condition s).0) [
    | inr (v, h) ↦ inl (v, ap (λ r. r.0) (wait_for-met s v h))
    | inl h ↦
        subst (λ r. Ends r (deadline s)) (sym (wait_for-waits s h))
          (wait_loop-Ends (timeout / 100 + 1) (C.time (condition s).1) 0 (condition s).1
            (omega arith) (omega arith))
  ]

  wait_loop-none :
      (start elapsed : ℕ) (s : C.State)
      → (wait_loop C condition timeout zero start elapsed s).0 ≡ none
  unfolding wait_loop
  wait_loop-none start elapsed s = refl

  unmet_of_none : (r : Option (Waited V)) → r ≡ none → r ≢ some timed_out
  unmet_of_none r p q = absurd (cc)

  unmet_of_met : (v : V) → some (met v) ≢ some timed_out
  unmet_of_met v p = absurd (cc)

  early_check :
      (t : ℕ)
      → ((u : C.State) → t ≤ C.time (condition u).1 → is_some (condition u).0 ≡ true)
      → (s : C.State) → (condition s).0 ≡ none
      → C.time (condition s).1 < t
  early_check t h s e = ground (arith, h s)

  -- A loop before its time does not time out, if the condition is met from the deadline on.
  wait_loop_waits :
      (n start elapsed : ℕ) (s : C.State)
      → ((t : C.State) → start + timeout ≤ C.time (condition t).1 → is_some (condition t).0 ≡ true)
      → elapsed < timeout
      → (wait_loop C condition timeout n start elapsed s).0 ≢ some timed_out
  wait_loop_waits zero start elapsed s h l =
      unmet_of_none (wait_loop C condition timeout zero start elapsed s).0
        (wait_loop-none start elapsed s)
  wait_loop_waits (suc n) start elapsed s h l = elim (Option-cases (condition s).0) [
    | inr (v, e) ↦ λ p.
        absurd (unmet_of_met v (sym (ap (λ r. r.0) (wait_loop-met n start elapsed s v l e)) ∙ p))
    | inl e ↦ λ p.
        let early = early_check (start + timeout) h s e in
        wait_loop_waits n start (C.time (condition s).1 - start) (slept start s) h (omega arith)
          (sym (ap (λ r. r.0) (wait_loop-again n start elapsed s l e)) ∙ p)
  ]

  -- On a clock that goes forward, where a sleep takes at least its time, a condition that is met
  -- whenever a check of it ends at the deadline or later is seen: WaitFor returns an answer of it,
  -- whatever it was before. The deadline is the timeout after the end of the first check.
  pub wait_for-IsMet :
      (s : C.State)
      → ((t : C.State) → deadline s ≤ C.time (condition t).1 → is_some (condition t).0 ≡ true)
      → (v : V) × ((wait_for C condition timeout s).0 ≡ some (met v))
  wait_for-IsMet s h = elim (wait_for-Ends s) [
    | inl found ↦ found
    | inr (late, _) ↦ elim (Option-cases (condition s).0) [
      | inr (v, e) ↦ (v, ap (λ r. r.0) (wait_for-met s v e))
      | inl e ↦
          let early = early_check (deadline s) h s e in
          absurd (
            wait_loop_waits (suc (suc (timeout / 100 + 1))) (C.time (condition s).1) 0
              (condition s).1 h (omega arith) (sym (ap (λ r. r.0) (wait_for-waits s e)) ∙ late))
    ]
  ]
