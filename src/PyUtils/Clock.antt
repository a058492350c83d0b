-- ===== src/PyUtils/Clock.antt =====
-- `time.time` and `time.sleep`, as an interface. Times are in milliseconds.
use car_multimedia_android_a.Base.{ℕ, ◌≤◌, ◌+◌, ◌*◌}

pub record Clock : Type 1 where
  pub State : Type 0
  pub time : State → ℕ
  -- The duration is in tenths of a millisecond.
  pub sleep : ℕ → State → State

-- A sleep takes at least as long as it is told.
pub record IsLawful (C : Clock) : Type 0 where
  pub time-sleep : (n : ℕ) (s : C.State) → C.time s * 10 + n ≤ C.time (C.sleep n s) * 10
