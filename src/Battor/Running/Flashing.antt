-- ===== src/Battor/Running/Flashing.antt =====
-- What flashing a BattOr leaves behind.
use car_multimedia_android_a.Base.{
  ◌≡◌, refl, sym, ap, subst, ◌∙◌, ◌⊎◌, inl, inr, true, is_some, arith, Bool-cases,
}
use car_multimedia_android_a.Battor.Wrapper.{
  Host, World, Result, raised, returned, Error, and_then, upload_serial_log, drop_serial_log,
  start_shell,
}
use car_multimedia_android_a.Battor.Wrapper.Session.{
  try_flash, restart, ignore_value_error, flash_battor,
}
use car_multimedia_android_a.Battor.Running.{
  status, upload-status, Started, start_shell-Started, try_flash-tracing,
}

module _ (H : Host) where
  -- What flashing promises: the trace is as it was, and there is a shell, or an exception.
  pub record Flashed (w : World H) (r : Result (Unit {0}) × World H) : Type 0 where
    pub same : r.1.battor.tracing ≡ w.battor.tracing
    pub shell : (is_some r.1.battor.battor_shell ≡ true) ⊎ ((e : Error) × (r.0 ≡ raised e))

  Started-Flashed :
      (w : World H) (outcome : Result (Unit {0})) (r : Result (Unit {0}) × World H)
      → Started H w r
      → Flashed w (and_then H r (λ _ w1. (outcome, w1)))
  Started-Flashed w outcome (raised e, w1) s = record { same = s.same; shell = inr (e, refl) }
  Started-Flashed w outcome (returned _, w1) s = record {
    same = s.same;
    shell = elim s.shell [ inl p ↦ inl p | inr (e, p, q) ↦ absurd (cc) ];
  }

  uploaded-Flashed :
      (w : World H) (outcome : Result (Unit {0})) (r : Result (Unit {0}) × World H)
      → status H r.1 ≡ status H w
      → Flashed w (
          and_then H r
            (λ _ w1. and_then H (start_shell H (drop_serial_log H w1)) (λ _ w2. (outcome, w2))))
  uploaded-Flashed w outcome (raised e, w1) p = record {
    same = ap (λ v. v.0) p;
    shell = inr (e, refl);
  }
  uploaded-Flashed w outcome (returned _, w1) p =
      let w2 = drop_serial_log H w1 in
      let f = Started-Flashed w2 outcome (start_shell H w2) (start_shell-Started H w2) in
      record { same = f.same ∙ ap (λ v. v.0) p; shell = f.shell }

  restart-Flashed : (outcome : Result (Unit {0})) (w : World H) → Flashed w (restart H (outcome, w))
  restart-Flashed outcome w = elim (Bool-cases (is_some w.battor.battor_shell)) [
    | inl p ↦ rw p (record { same = refl; shell = inl p })
    | inr p ↦ rw p (uploaded-Flashed w outcome (upload_serial_log H w) (upload-status H w))
  ]

  flash_battor-restart :
      (w : World H)
      → is_some w.battor.battor_shell ≡ true
      → flash_battor H w ≡ restart H (ignore_value_error H (try_flash H w).0, (try_flash H w).1)
  unfolding flash_battor
  flash_battor-restart w p = ground arith

  pub flash_battor-Flashed :
      (w : World H) → is_some w.battor.battor_shell ≡ true → Flashed w (flash_battor H w)
  flash_battor-Flashed w p =
      let f = restart-Flashed (ignore_value_error H (try_flash H w).0) (try_flash H w).1 in
      subst (Flashed w) (sym (flash_battor-restart w p))
        (record { same = f.same ∙ try_flash-tracing H w; shell = f.shell })
