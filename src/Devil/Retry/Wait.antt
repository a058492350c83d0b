-- ===== src/Devil/Retry/Wait.antt =====
-- `WatchdogTimer` of devil/utils/watchdog_timer.py, and of devil/utils/timeout_retry.py
-- `GetRemainingTime` and `WaitFor`. Times are in milliseconds; the thread group that the current
-- thread belongs to is a parameter, by its watchdog.
pub mod Ends
use car_multimedia_android_a.Base.{
  ℕ, zero, suc, ◌+◌, ◌-◌, ◌*◌, Bool, true, false, Option, none, some, ltb, leb, if◌then◌else◌,
}
use car_multimedia_android_a.PyUtils.Clock.{Clock}

pub record WatchdogTimer : Type 0 where
  pub start_time : ℕ
  pub timeout : Option ℕ

-- What `GetRemaining` answers: None, a number of milliseconds, or minus such a number.
pub data Remaining : Type 0 where
  never : Remaining
  left : ℕ → Remaining
  over : ℕ → Remaining

-- `WatchdogTimer.Reset`, at a time
abbrev pub reset : ℕ → WatchdogTimer → WatchdogTimer
reset now w = record w { start_time = now }

-- `WatchdogTimer.__init__`, at a time
abbrev pub new_watchdog : ℕ → Option ℕ → WatchdogTimer
new_watchdog now timeout = record { start_time = now; timeout = timeout }

-- `WatchdogTimer.GetElapsed`
abbrev pub get_elapsed : ℕ → WatchdogTimer → ℕ
get_elapsed now w = now - w.start_time

-- `WatchdogTimer.GetRemaining`. A timeout of 0 is no timeout.
unfoldable pub get_remaining : ℕ → WatchdogTimer → Remaining
get_remaining now w = elim w.timeout [
  | none ↦ never
  | some zero ↦ never
  | some (suc t) ↦
      let elapsed = get_elapsed now w in
      if leb elapsed (suc t) then left (suc t - elapsed) else over (elapsed - suc t)
]

-- `WatchdogTimer.IsTimedOut`
unfoldable pub is_timed_out : ℕ → WatchdogTimer → Bool
unfolding get_remaining
is_timed_out now w = elim (get_remaining now w) [
  | never ↦ false
  | left _ ↦ false
  | over n ↦ ltb 0 n
]

-- Whether `GetRemainingTime` raises a TimeoutError.
unfoldable pub is_too_late : ℕ → ℕ → WatchdogTimer → Bool
unfolding get_remaining
is_too_late required now w = elim (get_remaining now w) [
  | never ↦ false
  | left n ↦ ltb n required
  | over _ ↦ true
]

-- How a call of WaitFor ends: with what the condition answered, or with a TimeoutError.
pub data Waited (V : Type 0) : Type 0 where
  returned : V → Waited V
  timeout_error : Waited V

module _ (C : Clock) {V : Type 0} (condition : C.State → Option V × C.State) (wait_period : ℕ)
    (group : Option WatchdogTimer) where
  -- What `GetRemainingTime` decides, where there is a thread group.
  abbrev pub is_stopped : ℕ → Bool
  is_stopped now = elim group [ none ↦ false | some w ↦ is_too_late wait_period now w ]

  -- The loop, for a number of checks; `none` is when they are used up.
  unfoldable pub wait_loop : ℕ → C.State → Option (Waited V) × C.State
  unfolding is_too_late
  wait_loop zero s = (none, s)
  wait_loop (suc n) s =
      let (res, s1) = condition s in
      let rest = wait_loop n (C.sleep (wait_period * 10) s1) in
      elim res [
        | some v ↦ (some (returned v), s1)
        | none ↦ if is_stopped (C.time s1) then (some timeout_error, s1) else rest
      ]

  -- `WaitFor` with `max_tries`; it returns None when they are used up.
  unfoldable pub wait_for_tries : ℕ → C.State → Waited (Option V) × C.State
  unfolding wait_loop
  wait_for_tries max_tries s =
      let (outcome, s1) = wait_loop max_tries s in
      (
        elim outcome [
          | none ↦ returned none
          | some w ↦ elim w [ returned v ↦ returned (some v) | timeout_error ↦ timeout_error ]
        ],
        s1,
      )
