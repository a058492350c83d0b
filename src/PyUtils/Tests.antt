-- ===== src/PyUtils/Tests.antt =====
-- A wait on a clock that only sleeping moves, and the theorems about it.
use car_multimedia_android_a.Base.{
  ℕ, ◌+◌, ◌/◌, ◌≡◌, ◌≤◌, refl, Option, none, some, true, leb, if◌then◌else◌, arith, is_some,
}
use car_multimedia_android_a.PyUtils.Clock.{Clock, IsLawful}
use car_multimedia_android_a.PyUtils.WaitFor.{met, wait_for}
use car_multimedia_android_a.PyUtils.WaitFor.Outcome.{wait_for-Ends, wait_for-IsMet, Ends}

-- The state is the time; a sleep is rounded up.
abbrev ticks : Clock
ticks = record { State = ℕ; time = λ t. t; sleep = λ n t. t + (n + 9) / 10 }

ticks-IsLawful : IsLawful ticks
ticks-IsLawful = record { time-sleep = λ n s. omega arith }

-- Met from the time 1250 on.
abbrev is_late : ℕ → Option ℕ × ℕ
is_late t = (if leb 1250 t then some t else none, t)

goes_forward : (t : ℕ) → t ≤ (is_late t).1
goes_forward t = omega arith

late_enough : (t : ℕ) → 2000 ≤ (is_late t).1 → is_some (is_late t).0 ≡ true
late_enough t p = ground arith

-- Sleeps of a tenth of a second, and then of a tenth of the time elapsed.
a_wait : wait_for ticks is_late 2000 0 ≡ (some (met 1331), 1331)
unfolding wait_for
a_wait = refl

abbrev Waits : Type 0
Waits = Ends ticks is_late 1000 ticks-IsLawful goes_forward (wait_for ticks is_late 1000 0) 1000

wait_for-Ends_example : Waits
wait_for-Ends_example = wait_for-Ends ticks is_late 1000 ticks-IsLawful goes_forward 0

abbrev IsMet : Type 0
IsMet = (v : ℕ) × ((wait_for ticks is_late 2000 0).0 ≡ some (met v))

wait_for-IsMet_example : IsMet
wait_for-IsMet_example = wait_for-IsMet ticks is_late 2000 ticks-IsLawful goes_forward 0 late_enough
