-- ===== src/Devil/Retry/Tests.antt =====
-- A function that fails twice, and a condition that is never met.
use car_multimedia_android_a.Base.{
  ℕ, zero, suc, Bool, true, Option, none, some, ◌+◌, ◌/◌, ◌≡◌, ◌≤◌, refl, arith,
}
use car_multimedia_android_a.PyUtils.Clock.{Clock, IsLawful}
use car_multimedia_android_a.Devil.Retry.Wait.{
  wait_loop, wait_for_tries, returned, timeout_error as timed_out,
}
use car_multimedia_android_a.Devil.Retry.Wait.Ends.{Ends, group, wait_loop-Ends}
use car_multimedia_android_a.Devil.Retry.{Reply, value, timeout_error, IsDecided, run-IsDecided}

abbrev fails : ℕ → Reply ℕ ℕ × ℕ
fails zero = (value 5, zero)
fails (suc n) = (timeout_error, n)

abbrev always_retry : Option ℕ → Bool
always_retry e = true

run-IsDecided_example : IsDecided fails always_retry 3 2
run-IsDecided_example = run-IsDecided fails always_retry 3 2

abbrev ticks : Clock
ticks = record { State = ℕ; time = λ t. t; sleep = λ n t. t + (n + 9) / 10 }

ticks-IsLawful : IsLawful ticks
ticks-IsLawful = record { time-sleep = λ n s. omega arith }

abbrev unmet : ℕ → Option ℕ × ℕ
unmet t = (none, t + 1)

unmet_forward : (t : ℕ) → t ≤ (unmet t).1
unmet_forward t = omega arith

-- A group of ten seconds, of which a third period of five would pass the end.
a_timeout :
    wait_loop ticks unmet 5000 (group ticks unmet 5000 0 9999 ticks-IsLawful unmet_forward) 7 0
    ≡ (some timed_out, 5002)
unfolding wait_loop
a_timeout = refl

-- Outside of a group, the tries are used up.
three_tries : wait_for_tries ticks unmet 5000 none 3 0 ≡ (returned none, 15003)
unfolding wait_for_tries
three_tries = refl

abbrev EndsInTime : Type 0
EndsInTime =
    Ends ticks unmet 5000 0 9999 ticks-IsLawful unmet_forward
      (wait_loop ticks unmet 5000 (group ticks unmet 5000 0 9999 ticks-IsLawful unmet_forward) 3 0)

wait_loop-Ends_example : EndsInTime
wait_loop-Ends_example =
    wait_loop-Ends ticks unmet 5000 0 9999 ticks-IsLawful unmet_forward 2 0 (omega arith)
      (omega arith)
