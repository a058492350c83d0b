-- ===== src/Devil/Forwarder/Cleared.antt =====
-- What UnmapAllDevicePorts leaves in the maps.
use car_multimedia_android_a.Base.{
  ℕ, ◌≡◌, refl, sym, ap, subst, ◌∙◌, Bool, true, false, ◌&&◌, Option, none, some, List, [], ◌∷◌,
  String, str_eq, is_some, if◌then◌else◌, arith, Bool-cases, inl, inr,
}
use car_multimedia_android_a.Base.Assoc.{get, IsDistinct}
use car_multimedia_android_a.Devil.Forwarder.{
  Forwarder, Host, Result, returned, SerialPort, same_port, host_port_of, clear_items, kill_device,
  unmap_all_device_ports, all_unmapped, unmap_all, discard, and_then,
}
use car_multimedia_android_a.Devil.Forwarder.Inverse.{
  same_port_iff, IsInverse, removed, host_port_of-removed, del_ports-mapped, removed-IsInverse,
}

module _ (serial : String) where
  -- What the loop leaves of some items of the map
  pub record Cleared (items : List (SerialPort × ℕ)) (f : Forwarder)
      (r : Result (Unit {0}) × Forwarder) : Type 0 where
    pub ended : r.0 ≡ returned tt
    pub inverse : IsInverse r.1
    pub gone :
        (k : SerialPort)
        → host_port_of k r.1 ≡ (
            if str_eq k.0 serial && is_some (get same_port k items) then none else host_port_of k f)

  clear_match :
      (k : SerialPort) (h : ℕ) (items : List (SerialPort × ℕ)) (f : Forwarder)
      → str_eq k.0 serial ≡ true
      → host_port_of k f ≡ some h
      → IsInverse f
      → clear_items serial ((k, h) ∷ items) f ≡ clear_items serial items (removed k h f)
  unfolding clear_items
  clear_match k h items f p q i = ground (arith, del_ports-mapped k h f q i)

  clear_skip :
      (k : SerialPort) (h : ℕ) (items : List (SerialPort × ℕ)) (f : Forwarder)
      → str_eq k.0 serial ≡ false
      → clear_items serial ((k, h) ∷ items) f ≡ clear_items serial items f
  unfolding clear_items
  clear_skip k h items f p = ground arith

  get-items :
      (k j : SerialPort) (h : ℕ) (items : List (SerialPort × ℕ))
      → get same_port j ((k, h) ∷ items) ≡ (if same_port k j then some h else get same_port j items)
  unfolding get
  get-items k j h items = refl

  -- That the items are in the map
  abbrev Present : List (SerialPort × ℕ) → Forwarder → Type 0
  Present items f =
      (k : SerialPort) (h : ℕ) → get same_port k items ≡ some h → host_port_of k f ≡ some h

  clear_items-Cleared :
      (items : List (SerialPort × ℕ)) (f : Forwarder)
      → IsDistinct same_port items
      → Present items f
      → IsInverse f
      → Cleared items f (clear_items serial items f)
  unfolding clear_items get
  clear_items-Cleared [] f d p i = record { ended = refl; inverse = i; gone = λ k. ground arith }
  clear_items-Cleared ((k, h) ∷ items) f (fresh, d) p i = elim (Bool-cases (str_eq k.0 serial)) [
    | inl q ↦
        let found = p k h (ground (arith, get-items k k h items, same_port_iff k k)) in
        let rest =
          clear_items-Cleared items (removed k h f) d
            (λ j u e. ground (
              arith,
              p j u,
              get-items k j h items,
              host_port_of-removed k j h f,
              same_port_iff k j,
            ))
            (removed-IsInverse k h f found i) in
        subst (Cleared ((k, h) ∷ items) f) (sym (clear_match k h items f q found i)) (record {
          ended = rest.ended;
          inverse = rest.inverse;
          gone = λ j. ground (
            arith,
            rest.gone j,
            get-items k j h items,
            host_port_of-removed k j h f,
            same_port_iff k j,
          );
        })
    | inr q ↦
        let rest =
          clear_items-Cleared items f d
            (λ j u e. ground (arith, p j u, get-items k j h items, same_port_iff k j)) i in
        subst (Cleared ((k, h) ∷ items) f) (sym (clear_skip k h items f q)) (record {
          ended = rest.ended;
          inverse = rest.inverse;
          gone = λ j. ground (arith, rest.gone j, get-items k j h items, same_port_iff k j);
        })
  ]

pub clear_all-Cleared :
    (serial : String) (f : Forwarder)
    → IsInverse f
    → Cleared serial f.device_to_host_port_map f (clear_items serial f.device_to_host_port_map f)
clear_all-Cleared serial f i =
    clear_items-Cleared serial f.device_to_host_port_map f i.distinct (λ k h p. p) i

module _ (H : Host) where
  -- Killing the device's forwarder leaves the maps as they are.
  pub kill_device-maps :
      (serial : String) (f : Forwarder) (s : H.State)
      → (kill_device H serial f s).1.0
        ≡ record f { initialized_devices = discard serial f.initialized_devices }
  unfolding kill_device
  kill_device-maps serial f s = ground arith

  pub unmap_all-forwarder :
      (serial : String) (f : Forwarder) (s : H.State)
      → IsInverse f
      → all_unmapped H (H.run (unmap_all serial) s).0 ≡ returned tt
      → let g = (clear_items serial f.device_to_host_port_map f).1 in
        (unmap_all_device_ports H serial f s).1.0
        ≡ record g { initialized_devices = discard serial g.initialized_devices }
  unfolding unmap_all_device_ports
  unmap_all-forwarder serial f s i p =
      let cleared = clear_all-Cleared serial f i in
      let g = (clear_items serial f.device_to_host_port_map f).1 in
      ap
        (λ r.
          (and_then H (r, (f, (H.run (unmap_all serial) s).1))
            (λ f1 s2.
              and_then H
                (
                  (clear_items serial f1.device_to_host_port_map f1).0,
                  ((clear_items serial f1.device_to_host_port_map f1).1, s2),
                )
                (kill_device H serial))).1.0)
        p
      ∙ ap (λ r. (and_then H (r, (g, (H.run (unmap_all serial) s).1)) (kill_device H serial)).1.0)
          cleared.ended
      ∙ kill_device-maps serial g (H.run (unmap_all serial) s).1

  -- Where the two maps are inverse to each other and the host forwarder unmaps all ports of a
  -- device, none of them is left in the map, and the ports of the other devices are mapped as
  -- before, also if the device's forwarder cannot be killed in the end.
  pub unmap_all-host_port_of :
      (serial : String) (f : Forwarder) (s : H.State) (k : SerialPort)
      → IsInverse f
      → all_unmapped H (H.run (unmap_all serial) s).0 ≡ returned tt
      → host_port_of k (unmap_all_device_ports H serial f s).1.0
        ≡ (if str_eq k.0 serial then none else host_port_of k f)
  unmap_all-host_port_of serial f s k i p =
      let cleared = clear_all-Cleared serial f i in
      ap (host_port_of k) (unmap_all-forwarder serial f s i p)
      ∙ cleared.gone k
      ∙ missing_or_gone (str_eq k.0 serial) (host_port_of k f)
    where
      missing_or_gone :
          (b : Bool) (found : Option ℕ)
          → (if b && is_some found then none else found) ≡ (if b then none else found)
      missing_or_gone true none = refl
      missing_or_gone true (some h) = refl
      missing_or_gone false found = refl
