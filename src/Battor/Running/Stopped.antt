-- ===== src/Battor/Running/Stopped.antt =====
-- That StopShell ends, with the shell's exit or without it.
use car_multimedia_android_a.Base.{
  ℕ, ◌≡◌, refl, sym, subst, ◌⊎◌, inl, inr, ◌*◌, false, Option, none, some, String, arith,
}
use car_multimedia_android_a.PyUtils.Clock.{IsLawful}
use car_multimedia_android_a.PyUtils.WaitFor.Outcome.{wait_for-Ends}
use car_multimedia_android_a.Battor.Wrapper.{
  Host, World, Result, raised, returned, Error, timeout_exception, clock_of, send_battor_command,
  check_status,
}
use car_multimedia_android_a.Battor.Wrapper.Session.{
  has_exited, wait_for_exit, stop_shell, after_exit, close_timeout,
}

module _ (H : Host) (L : IsLawful (clock_of H)) where
  -- The wait for the shell ends, with its exit or with a TimeoutException.
  wait_for_exit-Ends :
      (t : ℕ) (w : World H) (shell : H.Shell)
      → w.battor.battor_shell ≡ some shell
      → ((wait_for_exit H t w).0 ≡ returned tt)
        ⊎ ((wait_for_exit H t w).0 ≡ raised timeout_exception)
  unfolding wait_for_exit
  wait_for_exit-Ends t w shell p =
      elim (wait_for-Ends (clock_of H) (has_exited H shell) (t * 1000) L (λ h. omega arith)
        w.host) [ inl (_, m) ↦ inl (ground arith) | inr (m, _) ↦ inr (ground arith) ]

  abbrev IsStopped : Result (Unit {0}) × World H → Type 0
  IsStopped r = (r.0 ≡ returned tt) × (r.1.battor.battor_shell ≡ none)

  after_exit-IsStopped :
      (r : Result (Unit {0}) × World H)
      → (r.0 ≡ returned tt) ⊎ (r.0 ≡ raised timeout_exception)
      → IsStopped (after_exit H r)
  after_exit-IsStopped (returned _, w) q = (refl, refl)
  after_exit-IsStopped (raised e, w) (inl q) = absurd (cc)
  after_exit-IsStopped (raised e, w) (inr q) =
      (elim e
          as (λ e.
            ◌≡◌ {A = Result (Unit {0})} (raised e) (raised timeout_exception)
            → IsStopped (after_exit H (raised e, w))) [
              | Error.timeout_exception ↦ λ _. (refl, refl)
              | other ↦ λ p. absurd (cc)
            ])
        q

  send-kept :
      (cmd answer : String) (w : World H) (shell : H.Shell) (h : H.State)
      → w.battor.battor_shell ≡ some shell
      → H.ask shell cmd w.host ≡ (returned answer, h)
      → send_battor_command H cmd false w ≡ (returned answer, record w { host = h })
  unfolding send_battor_command check_status
  send-kept cmd answer w shell h p q = ground arith

  stop_shell-sent :
      (t : Option ℕ) (w : World H) (shell : H.Shell) (answer : String) (h : H.State)
      → w.battor.tracing ≡ false
      → w.battor.battor_shell ≡ some shell
      → H.ask shell "Exit" w.host ≡ (returned answer, h)
      → stop_shell H t w
        ≡ after_exit H (wait_for_exit H (close_timeout H t) (record w { host = h }))
  unfolding stop_shell
  stop_shell-sent t w shell answer h n p q =
      let sent = send-kept "Exit" answer w shell h p q in ground arith

  -- On a lawful clock, a StopShell of a shell that answers to the command Exit, when no trace is
  -- on, returns with the shell forgotten, whether the shell exits in time or has to be killed.
  pub stop_shell-IsStopped :
      (t : Option ℕ) (w : World H) (shell : H.Shell) (answer : String) (h : H.State)
      → w.battor.tracing ≡ false
      → w.battor.battor_shell ≡ some shell
      → H.ask shell "Exit" w.host ≡ (returned answer, h)
      → ((stop_shell H t w).0 ≡ returned tt) × ((stop_shell H t w).1.battor.battor_shell ≡ none)
  stop_shell-IsStopped t w shell answer h n p q =
      let w1 = record w { host = h } in
      subst IsStopped (sym (stop_shell-sent t w shell answer h n p q)) (
        after_exit-IsStopped (wait_for_exit H (close_timeout H t) w1)
          (wait_for_exit-Ends (close_timeout H t) w1 shell p))
