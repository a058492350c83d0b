-- ===== src/Devil/Forwarder/Steps.antt =====
-- The public methods of the forwarder as steps, and what they never break.
use car_multimedia_android_a.Base.{
  ℕ, ◌≡◌, refl, sym, subst, Bool, true, false, none, some, List, [], ◌∷◌, String, if◌then◌else◌,
  arith, Option-cases, inl, inr, contains,
}
use car_multimedia_android_a.Devil.Forwarder.{
  Forwarder, new_forwarder, Host, raised, returned, Error, host_port_of, serial_port_of,
  clear_items, kill_device, init_device, or_reboot, after_failure, mapped, map_all, map_ports,
  map_port_pairs, unmap_device_port, unmap_all_device_ports, Outcome, and_then, with_forwarder,
  discard, Answer, timed_out, no_such_file, os_failed, failed, unexpected, not_numbers, ports,
  unmap_all, all_unmapped,
}
use car_multimedia_android_a.Devil.Forwarder.Inverse.{
  IsInverse, new_forwarder-IsInverse, add_ports-IsInverse, removed, del_ports-mapped,
  removed-IsInverse,
}
use car_multimedia_android_a.Devil.Forwarder.Cleared.{clear_all-Cleared, kill_device-maps}

-- The devices that are initialized do not matter to the maps.
devices-IsInverse :
    (f : Forwarder) (devices : List String)
    → IsInverse f
    → IsInverse (record f { initialized_devices = devices })
devices-IsInverse f devices i = record { there = i.there; back = i.back; distinct = i.distinct }

module _ (H : Host) where
  -- An answer to a mapping that names no port in use
  abbrev pub IsFresh : String → Answer → Forwarder → Type 0
  IsFresh serial (ports d h) f = (host_port_of (serial, d) f ≡ none) × (serial_port_of h f ≡ none)
  IsFresh serial timed_out f = Unit
  IsFresh serial no_such_file f = Unit
  IsFresh serial os_failed f = Unit
  IsFresh serial failed f = Unit
  IsFresh serial unexpected f = Unit
  IsFresh serial not_numbers f = Unit

  -- What the loop of Map has made of the forwarder and the host after a pair of ports
  abbrev after_pair : String → ℕ → ℕ → Forwarder → H.State → Outcome H
  after_pair serial d h f s =
      mapped H serial (H.run (map_ports serial d h) s).0 f (H.run (map_ports serial d h) s).1

  -- All the answers that the loop of Map gets are so.
  abbrev pub AreFresh : String → List (ℕ × ℕ) → Forwarder → H.State → Type 0
  AreFresh serial [] f s = Unit
  AreFresh serial ((d, h) ∷ pairs) f s =
      IsFresh serial (H.run (map_ports serial d h) s).0 f
      × AreFresh serial pairs (after_pair serial d h f s).1.0 (after_pair serial d h f s).1.1

  and_then-Holds :
      (P : Forwarder → Type 0) (r : Outcome H) (k : Forwarder → H.State → Outcome H)
      → P r.1.0
      → (P r.1.0 → P (k r.1.0 r.1.1).1.0)
      → P (and_then H r k).1.0
  and_then-Holds P (raised e, w) k p q = p
  and_then-Holds P (returned _, (f, s)) k p q = q p

  if-Holds :
      (P : Forwarder → Type 0) (b : Bool) (x y : Outcome H)
      → P x.1.0
      → P y.1.0
      → P (if b then x else y).1.0
  if-Holds P true x y p q = p
  if-Holds P false x y p q = q

  kill_device-IsInverse :
      (serial : String) (f : Forwarder) (s : H.State)
      → IsInverse f
      → IsInverse (kill_device H serial f s).1.0
  kill_device-IsInverse serial f s i =
      subst IsInverse (sym (kill_device-maps H serial f s))
        (devices-IsInverse f (discard serial f.initialized_devices) i)

  or_reboot-forwarder : (serial : String) (r : Outcome H) → (or_reboot H serial r).1.0 ≡ r.1.0
  or_reboot-forwarder serial (returned _, w) = refl
  or_reboot-forwarder serial (raised e, (f, s)) =
      elim e as (λ e. (or_reboot H serial (raised e, (f, s))).1.0 ≡ f) [
        | Error.command_failed ↦ refl
        | other ↦ refl
      ]

  after_failure-forwarder : (r : Outcome H) → (after_failure H r).1.0 ≡ r.1.0
  after_failure-forwarder (returned _, w) = refl
  after_failure-forwarder (raised e, w) =
      elim e as (λ e. (after_failure H (raised e, w)).1.0 ≡ w.0) [
        | Error.command_failed ↦ refl
        | Error.device_unreachable ↦ refl
        | other ↦ refl
      ]

  mapped-IsInverse :
      (serial : String) (answer : Answer) (f : Forwarder) (s : H.State)
      → IsFresh serial answer f
      → IsInverse f
      → IsInverse (mapped H serial answer f s).1.0
  unfolding mapped
  mapped-IsInverse serial (ports d h) f s fresh i =
      add_ports-IsInverse (serial, d) h f fresh.0 fresh.1 i
  mapped-IsInverse serial failed f s fresh i =
      subst IsInverse (sym (after_failure-forwarder (kill_device H serial f s)))
        (kill_device-IsInverse serial f s i)
  mapped-IsInverse serial timed_out f s fresh i = i
  mapped-IsInverse serial no_such_file f s fresh i = i
  mapped-IsInverse serial os_failed f s fresh i = i
  mapped-IsInverse serial unexpected f s fresh i = i
  mapped-IsInverse serial not_numbers f s fresh i = i

  map_all-IsInverse :
      (serial : String) (pairs : List (ℕ × ℕ)) (f : Forwarder) (s : H.State)
      → AreFresh serial pairs f s
      → IsInverse f
      → IsInverse (map_all H serial pairs f s).1.0
  unfolding map_all
  map_all-IsInverse serial [] f s fresh i = i
  map_all-IsInverse serial ((d, h) ∷ pairs) f s (first, later) i =
      let r = after_pair serial d h f s in
      and_then-Holds IsInverse r (map_all H serial pairs)
        (mapped-IsInverse serial (H.run (map_ports serial d h) s).0 f
          (H.run (map_ports serial d h) s).1 first i)
        (λ j. map_all-IsInverse serial pairs r.1.0 r.1.1 later j)

  init_device-IsInverse :
      (serial : String) (f : Forwarder) (s : H.State)
      → IsInverse f
      → IsInverse (init_device H serial f s).1.0
  unfolding init_device
  init_device-IsInverse serial f s i =
      let killed = or_reboot H serial (kill_device H serial f s) in
      if-Holds IsInverse (contains serial f.initialized_devices) _ _ i (
        and_then-Holds IsInverse killed _
          (subst IsInverse (sym (or_reboot-forwarder serial (kill_device H serial f s)))
            (kill_device-IsInverse serial f s i))
          (λ j.
            and_then-Holds IsInverse
              (with_forwarder H killed.1.0 (H.push_and_start serial killed.1.1)) _ j
              (λ k. devices-IsInverse killed.1.0 (serial ∷ killed.1.0.initialized_devices) k)))

  unmap-some :
      (port h : ℕ) (serial : String) (f : Forwarder) (s : H.State)
      → host_port_of (serial, port) f ≡ some h
      → IsInverse f
      → (unmap_device_port H port serial f s).1.0 ≡ removed (serial, port) h f
  unfolding unmap_device_port
  unmap-some port h serial f s p i = ground (arith, del_ports-mapped (serial, port) h f p i)

  unmap-none :
      (port : ℕ) (serial : String) (f : Forwarder) (s : H.State)
      → host_port_of (serial, port) f ≡ none
      → (unmap_device_port H port serial f s).1.0 ≡ f
  unfolding unmap_device_port
  unmap-none port serial f s p = ground arith

  unmap_device_port-IsInverse :
      (port : ℕ) (serial : String) (f : Forwarder) (s : H.State)
      → IsInverse f
      → IsInverse (unmap_device_port H port serial f s).1.0
  unmap_device_port-IsInverse port serial f s i =
      elim (Option-cases (host_port_of (serial, port) f)) [
        | inl p ↦ subst IsInverse (sym (unmap-none port serial f s p)) i
        | inr (h, p) ↦
            subst IsInverse (sym (unmap-some port h serial f s p i))
              (removed-IsInverse (serial, port) h f p i)
      ]

  unmap_all-IsInverse :
      (serial : String) (f : Forwarder) (s : H.State)
      → IsInverse f
      → IsInverse (unmap_all_device_ports H serial f s).1.0
  unfolding unmap_all_device_ports
  unmap_all-IsInverse serial f s i =
      let answered : Outcome H =
        (all_unmapped H (H.run (unmap_all serial) s).0, (f, (H.run (unmap_all serial) s).1)) in
      let cleared = clear_all-Cleared serial f i in
      let result = clear_items serial f.device_to_host_port_map f in
      and_then-Holds IsInverse answered _ i (λ _.
        and_then-Holds IsInverse (result.0, (result.1, (H.run (unmap_all serial) s).1))
          (kill_device H serial) cleared.inverse
          (λ j. kill_device-IsInverse serial result.1 (H.run (unmap_all serial) s).1 j))

  -- A call of a public method, whether it raises or returns, at any state of the host; no answer to
  -- a mapping names a port that is in use.
  pub data Step (f : Forwarder) : Forwarder → Type 0 where
    maps :
        (pairs : List (ℕ × ℕ)) (serial : String) (s : H.State)
        → AreFresh serial pairs (init_device H serial f s).1.0 (init_device H serial f s).1.1
        → Step f (map_port_pairs H pairs serial f s).1.0
    unmaps :
        (port : ℕ) (serial : String) (s : H.State)
        → Step f (unmap_device_port H port serial f s).1.0
    unmaps_all : (serial : String) (s : H.State) → Step f (unmap_all_device_ports H serial f s).1.0
    kills : (serial : String) (s : H.State) → Step f (kill_device H serial f s).1.0

  pub data Steps (f : Forwarder) : Forwarder → Type 0 where
    done : Steps f f
    then_step : {g h : Forwarder} → Steps f g → Step g h → Steps f h

  Step-IsInverse : {f g : Forwarder} → Step f g → IsInverse f → IsInverse g
  unfolding map_port_pairs
  Step-IsInverse {f} (maps pairs serial s fresh) i =
      let started = init_device H serial f s in
      and_then-Holds IsInverse started (map_all H serial pairs) (init_device-IsInverse serial f s i)
        (λ j. map_all-IsInverse serial pairs started.1.0 started.1.1 fresh j)
  Step-IsInverse {f} (unmaps port serial s) i = unmap_device_port-IsInverse port serial f s i
  Step-IsInverse {f} (unmaps_all serial s) i = unmap_all-IsInverse serial f s i
  Step-IsInverse {f} (kills serial s) i = kill_device-IsInverse serial f s i

  -- However the forwarder's methods are called, in any order and whether they raise or return, as
  -- long as no port that is in use is given out again, the two maps stay inverse to each other and
  -- no device port stands twice.
  pub Steps-IsInverse : {f : Forwarder} → Steps new_forwarder f → IsInverse f
  Steps-IsInverse done = new_forwarder-IsInverse
  Steps-IsInverse (then_step steps step) = Step-IsInverse step (Steps-IsInverse steps)
