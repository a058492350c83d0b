-- ===== src/PyUtils/WaitFor.antt =====
-- `WaitFor` of common/py_utils/py_utils/__init__.py. The clock and the condition are parameters;
-- an answer of the condition that is not true is `none`. The texts logged are left out, and with
-- them `last_output_time`.
pub mod Outcome
use car_multimedia_android_a.Base.{
  ℕ, zero, suc, ◌+◌, ◌-◌, ◌*◌, ◌/◌, Bool, true, false, Option, none, some, ltb, leb, if◌then◌else◌,
}
use car_multimedia_android_a.PyUtils.Clock.{Clock}

-- How a wait ends: with what the condition answered, or with a TimeoutException.
pub data Waited (V : Type 0) : Type 0 where
  met : V → Waited V
  timed_out : Waited V

-- `min(max(elapsed_time / 10., 0.1), 5)` seconds, in tenths of a millisecond: the tenth of the
-- time elapsed is as many of them as there are milliseconds in it.
unfoldable pub poll_interval : ℕ → ℕ
poll_interval elapsed =
    let longer = if leb elapsed 1000 then 1000 else elapsed in
    if leb longer 50000 then longer else 50000

module _ (C : Clock) {V : Type 0} (condition : C.State → Option V × C.State) (timeout : ℕ) where
  -- The `while` loop, on fuel: `none` is a loop that has not ended.
  unfoldable pub wait_loop : ℕ → ℕ → ℕ → C.State → Option (Waited V) × C.State
  unfolding poll_interval
  wait_loop zero start elapsed s = (none, s)
  wait_loop (suc n) start elapsed s =
      let (res, s1) = condition s in
      let spent = C.time s1 - start in
      let rest = wait_loop n start spent (C.sleep (poll_interval spent) s1) in
      if ltb elapsed timeout
      then elim res [ some v ↦ (some (met v), s1) | none ↦ rest ]
      else (some timed_out, s)

  -- As many rounds as the loop can take: each but the first two takes a tenth of a second.
  abbrev pub rounds : ℕ
  rounds = timeout / 100 + 3

  -- `WaitFor`
  unfoldable pub wait_for : C.State → Option (Waited V) × C.State
  unfolding wait_loop
  wait_for s =
      let (res, s1) = condition s in
      elim res [ some v ↦ (some (met v), s1) | none ↦ wait_loop rounds (C.time s1) 0 s1 ]
