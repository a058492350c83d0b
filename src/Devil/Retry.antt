-- ===== src/Devil/Retry.antt =====
-- `Run` of devil/utils/timeout_retry.py, and the decorator TimeoutDeco of py_utils, which calls it.
-- One try, a thread that is joined until it ends or its time is over, is a parameter.
use car_multimedia_android_a.Base.{
  ℕ, zero, suc, ◌<◌, ◌≤◌, ◌≡◌, refl, Bool, true, false, Option, none, some, if◌then◌else◌, ◌⊎◌, inl,
  inr, arith, Bool-cases, ◌∙◌, sym, ap,
}
mod Tests
pub mod Wait

-- How a try ends: with a value, a reraiser_thread.TimeoutError, another Exception, or something
-- like KeyboardInterrupt that is no Exception.
pub data Reply (Value Exception : Type 0) : Type 0 where
  value : Value → Reply Value Exception
  timeout_error : Reply Value Exception
  exception : Exception → Reply Value Exception
  interrupt : Reply Value Exception

module _ {State Value Exception : Type 0} (attempt : State → Reply Value Exception × State)
    (retry_if_func : Option Exception → Bool) where
  -- Whether an `except` clause catches the reply and does not raise it again in an early try;
  -- retry_if_func is asked about a TimeoutError as `none`.
  unfoldable pub is_retried : Reply Value Exception → Bool
  is_retried (value v) = false
  is_retried timeout_error = retry_if_func none
  is_retried (exception e) = retry_if_func (some e)
  is_retried interrupt = false

  -- The loop of `Run`, on the retries that are left: `retries + 1 - num_try`.
  unfoldable pub run : ℕ → State → Reply Value Exception × State
  unfolding is_retried
  run zero s = attempt s
  run (suc retries) s =
      let (reply, s') = attempt s in
      let again = run retries s' in if is_retried reply then again else (reply, s')

  -- The state behind a number of tries.
  abbrev pub state_after : ℕ → State → State
  state_after zero s = s
  state_after (suc n) s = state_after n (attempt s).1

  -- The try that decides a call of `Run`.
  pub record Decides (retries n : ℕ) (s : State) : Type 0 where
    pub in_range : n ≤ retries
    pub earlier : (j : ℕ) → j < n → is_retried (attempt (state_after j s)).0 ≡ true
    pub decisive : (is_retried (attempt (state_after n s)).0 ≡ false) ⊎ (n ≡ retries)
    pub result : run retries s ≡ attempt (state_after n s)

  abbrev pub IsDecided : ℕ → State → Type 0
  IsDecided retries s = (n : ℕ) × Decides retries n s

  run-last :
      (retries : ℕ) (s : State) → is_retried (attempt s).0 ≡ false → run (suc retries) s ≡ attempt s
  unfolding run
  run-last retries s e = ground arith

  run-again :
      (retries : ℕ) (s : State)
      → is_retried (attempt s).0 ≡ true
      → run (suc retries) s ≡ run retries (attempt s).1
  unfolding run
  run-again retries s e = ground arith

  run_zero : (s : State) → run 0 s ≡ attempt s
  unfolding run
  run_zero s = refl

  -- A call of Run ends as one of its first `retries + 1` tries does: as the first that is not
  -- caught and tried again, or as the last of them if all of them are; and no try follows it.
  pub run-IsDecided : (retries : ℕ) (s : State) → IsDecided retries s
  run-IsDecided zero s = (
    zero,
    record {
      in_range = omega arith;
      earlier = λ j l. absurd (omega arith);
      decisive = inr refl;
      result = run_zero s;
    },
  )
  run-IsDecided (suc retries) s = elim (Bool-cases (is_retried (attempt s).0)) [
    | inr last ↦ (
      zero,
      record {
        in_range = omega arith;
        earlier = λ j l. absurd (omega arith);
        decisive = inl last;
        result = run-last retries s last;
      },
    )
    | inl again ↦
        let (n, d) = run-IsDecided retries (attempt s).1 in
        let in_range = d.in_range in
        (
          suc n,
          record {
            in_range = omega arith;
            earlier = earlier_suc n again d.earlier;
            decisive = elim d.decisive [ inl x ↦ inl x | inr e ↦ inr (ap suc e) ];
            result = run-again retries s again ∙ d.result;
          },
        )
  ]
    where
      earlier_suc :
          (n : ℕ)
          → is_retried (attempt s).0 ≡ true
          → ((j : ℕ) → j < n → is_retried (attempt (state_after j (attempt s).1)).0 ≡ true)
          → (j : ℕ) → j < suc n
          → is_retried (attempt (state_after j s)).0 ≡ true
      earlier_suc n again h zero l = again
      earlier_suc n again h (suc j) l = h j (omega arith)

-- `RunWithTimeout` of TimeoutDeco: none is False, which a try that has timed out gives.
unfoldable pub run_with_timeout :
    {State Value Exception : Type 0} (attempt : State → Reply Value Exception × State)
    → State
    → Reply (Option Value) Exception × State
run_with_timeout attempt s =
    let (reply, s') = run attempt (λ e. true) 0 s in
    (
      elim reply [
        | value v ↦ value (some v)
        | timeout_error ↦ value none
        | exception e ↦ exception e
        | interrupt ↦ interrupt
      ],
      s',
    )
