-- ===== src/Devil/Retry/Wait/Ends.antt =====
-- A wait in a thread group that has a timeout ends, however often the condition may be checked.
use car_multimedia_android_a.Base.{
  ℕ, zero, suc, ◌+◌, ◌*◌, ◌≤◌, ◌<◌, ◌≡◌, sym, ap, subst, ◌⊎◌, inl, inr, true, false, Option, none,
  some, ltb, arith, Option-cases, Bool-cases,
}
use car_multimedia_android_a.PyUtils.Clock.{Clock, IsLawful}
use car_multimedia_android_a.Devil.Retry.Wait.{
  WatchdogTimer, get_remaining, is_too_late, Waited, returned, timeout_error, wait_loop,
}

-- A thread group's time is too short for the wait just when the wait would end after its deadline.
is_too_late_iff :
    (required now start t : ℕ)
    → start ≤ now
    → is_too_late required now (record { start_time = start; timeout = some (suc t) })
      ≡ ltb (start + suc t) (now + required)
unfolding is_too_late get_remaining
is_too_late_iff required now start t p = ground arith

module _ (C : Clock) {V : Type 0} (condition : C.State → Option V × C.State) (wait_period : ℕ)
    (start t : ℕ) (L : IsLawful C)
    (forward : (s : C.State) → C.time s ≤ C.time (condition s).1) where
  -- The thread group whose watchdog has been set at a time, with a timeout.
  abbrev pub group : Option WatchdogTimer
  group = some (record { start_time = start; timeout = some (suc t) })

  -- It ends with an answer of the condition, or with a TimeoutError when another period would end
  -- after the deadline.
  abbrev pub Ends : Option (Waited V) × C.State → Type 0
  Ends r =
      ((v : V) × (r.0 ≡ some (returned v)))
      ⊎ ((r.0 ≡ some timeout_error) × (start + suc t < C.time r.1 + wait_period))

  abbrev run : ℕ → C.State → Option (Waited V) × C.State
  run = wait_loop C condition wait_period group

  abbrev slept : C.State → C.State
  slept s = C.sleep (wait_period * 10) (condition s).1

  slept_ahead : (s : C.State) → C.time s + wait_period ≤ C.time (slept s)
  slept_ahead s = ground (arith, forward s, L.time-sleep (wait_period * 10) (condition s).1)

  run-met :
      (n : ℕ) (s : C.State) (v : V)
      → (condition s).0 ≡ some v
      → (run (suc n) s).0 ≡ some (returned v)
  unfolding wait_loop
  run-met n s v p = ground arith

  run-stopped :
      (n : ℕ) (s : C.State)
      → (condition s).0 ≡ none
      → is_too_late wait_period
          (C.time (condition s).1)
          (record { start_time = start; timeout = some (suc t) })
        ≡ true
      → run (suc n) s ≡ (some timeout_error, (condition s).1)
  unfolding wait_loop
  run-stopped n s p q = ground arith

  run-again :
      (n : ℕ) (s : C.State)
      → (condition s).0 ≡ none
      → is_too_late wait_period
          (C.time (condition s).1)
          (record { start_time = start; timeout = some (suc t) })
        ≡ false
      → run (suc n) s ≡ run n (slept s)
  unfolding wait_loop
  run-again n s p q = ground arith

  one_more : (n : ℕ) → suc n * wait_period ≡ wait_period + n * wait_period
  one_more n = grind arith

  -- A check decides the wait, or leaves it to the checks that follow, in time for another period.
  one_check :
      (n : ℕ) (s : C.State)
      → start ≤ C.time s
      → (C.time (condition s).1 + wait_period ≤ start + suc t → Ends (run n (slept s)))
      → Ends (run (suc n) s)
  one_check n s p next = elim (Option-cases (condition s).0) [
    | inr (v, h) ↦ inl (v, run-met n s v h)
    | inl h ↦
        let ahead = forward s in
        let now = C.time (condition s).1 in
        let late = is_too_late_iff wait_period now start t (omega arith) in
        elim (Bool-cases
          (is_too_late wait_period now (record { start_time = start; timeout = some (suc t) }))) [
            | inl stop ↦ inr (
              ap (λ r. r.0) (run-stopped n s h stop),
              subst (λ r. start + suc t < C.time r.1 + wait_period) (sym (run-stopped n s h stop))
                  (ground arith),
            )
            | inr go_on ↦ subst Ends (sym (run-again n s h go_on)) (next (ground arith))
          ]
  ]

  -- On a clock that goes forward, where a sleep takes at least its time, a wait in a thread group
  -- with a timeout ends, if at least as many checks are allowed as periods reach past the
  -- deadline: with an answer of the condition, or with a TimeoutError when one more period would
  -- end after the deadline.
  pub wait_loop-Ends :
      (n : ℕ) (s : C.State)
      → start ≤ C.time s
      → start + suc t < C.time s + suc n * wait_period
      → Ends (wait_loop C condition wait_period group (suc n) s)
  wait_loop-Ends zero s p q =
      let ahead = forward s in one_check zero s p (λ r. absurd (omega arith))
  wait_loop-Ends (suc m) s p q =
      let ahead = slept_ahead s in
      let same = one_more (suc m) in
      one_check (suc m) s p (λ r. wait_loop-Ends m (slept s) (omega arith) (omega arith))
