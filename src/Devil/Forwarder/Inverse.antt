-- ===== src/Devil/Forwarder/Inverse.antt =====
-- That the two maps of the forwarder are inverse to each other.
use car_multimedia_android_a.Base.{
  ℕ, ◌==◌, ==_iff, ◌≡◌, ◌↔◌, true, none, some, eq_iff, if◌then◌else◌, arith,
}
use car_multimedia_android_a.Base.Assoc.{
  get, del, get-put, get-del, IsDistinct, put-IsDistinct, del-IsDistinct,
}
use car_multimedia_android_a.Devil.Forwarder.{
  Forwarder, new_forwarder, returned, SerialPort, same_port, host_port_of, serial_port_of,
  add_ports, del_ports,
}

pub same_port_iff : (a b : SerialPort) → (same_port a b ≡ true) ↔ (a ≡ b)
same_port_iff (s, p) (t, q) = ground (arith, eq_iff s t, ==_iff p q)

-- Each host port leads back to the device port that it is mapped for, and the other way round.
pub record IsInverse (f : Forwarder) : Type 0 where
  pub there : (k : SerialPort) (h : ℕ) → host_port_of k f ≡ some h → serial_port_of h f ≡ some k
  pub back : (k : SerialPort) (h : ℕ) → serial_port_of h f ≡ some k → host_port_of k f ≡ some h
  pub distinct : IsDistinct same_port f.device_to_host_port_map

pub new_forwarder-IsInverse : IsInverse new_forwarder
unfolding get
new_forwarder-IsInverse = record {
  there = λ k h p. absurd (cc);
  back = λ k h p. absurd (cc);
  distinct = tt;
}

host_port_of-add_ports :
    (k j : SerialPort) (h : ℕ) (f : Forwarder)
    → host_port_of j (add_ports k h f) ≡ (if same_port k j then some h else host_port_of j f)
unfolding add_ports
host_port_of-add_ports k j h f = get-put same_port same_port_iff k j h f.device_to_host_port_map

serial_port_of-add_ports :
    (k : SerialPort) (h i : ℕ) (f : Forwarder)
    → serial_port_of i (add_ports k h f) ≡ (if h == i then some k else serial_port_of i f)
unfolding add_ports
serial_port_of-add_ports k h i f = get-put ◌==◌ ==_iff h i k f.host_to_device_port_map

add_ports-IsDistinct :
    (k : SerialPort) (h : ℕ) (f : Forwarder)
    → IsInverse f
    → IsDistinct same_port (add_ports k h f).device_to_host_port_map
unfolding add_ports
add_ports-IsDistinct k h f i =
    put-IsDistinct same_port same_port_iff k h f.device_to_host_port_map i.distinct

-- Ports that are new to both maps keep them inverse.
pub add_ports-IsInverse :
    (k : SerialPort) (h : ℕ) (f : Forwarder)
    → host_port_of k f ≡ none
    → serial_port_of h f ≡ none
    → IsInverse f
    → IsInverse (add_ports k h f)
add_ports-IsInverse k h f p q i = record {
  there = λ j u r. ground (
    arith,
    host_port_of-add_ports k j h f,
    serial_port_of-add_ports k h u f,
    i.there j u,
    same_port_iff k j,
    ==_iff h u,
  );
  back = λ j u r. ground (
    arith,
    host_port_of-add_ports k j h f,
    serial_port_of-add_ports k h u f,
    i.back j u,
    same_port_iff k j,
    ==_iff h u,
  );
  distinct = add_ports-IsDistinct k h f i;
}

-- Both maps without a pair of ports
abbrev pub removed : SerialPort → ℕ → Forwarder → Forwarder
removed k h f = record f {
  device_to_host_port_map = del same_port k f.device_to_host_port_map;
  host_to_device_port_map = del ◌==◌ h f.host_to_device_port_map;
}

pub host_port_of-removed :
    (k j : SerialPort) (h : ℕ) (f : Forwarder)
    → host_port_of j (removed k h f) ≡ (if same_port k j then none else host_port_of j f)
host_port_of-removed k j h f = get-del same_port same_port_iff k j f.device_to_host_port_map

serial_port_of-removed :
    (k : SerialPort) (h i : ℕ) (f : Forwarder)
    → serial_port_of i (removed k h f) ≡ (if h == i then none else serial_port_of i f)
serial_port_of-removed k h i f = get-del ◌==◌ ==_iff h i f.host_to_device_port_map

-- Where the maps are inverse, no KeyError is raised for ports that are mapped.
pub del_ports-mapped :
    (k : SerialPort) (h : ℕ) (f : Forwarder)
    → host_port_of k f ≡ some h
    → IsInverse f
    → del_ports k h f ≡ (returned tt, removed k h f)
unfolding del_ports
del_ports-mapped k h f p i = let there = i.there k h p in ground arith

pub removed-IsInverse :
    (k : SerialPort) (h : ℕ) (f : Forwarder)
    → host_port_of k f ≡ some h
    → IsInverse f
    → IsInverse (removed k h f)
removed-IsInverse k h f p i =
    let mapped = i.there k h p in
    record {
      there = λ j u r. ground (
        arith,
        host_port_of-removed k j h f,
        serial_port_of-removed k h u f,
        i.there j u,
        same_port_iff k j,
        ==_iff h u,
      );
      back = λ j u r. ground (
        arith,
        host_port_of-removed k j h f,
        serial_port_of-removed k h u f,
        i.back j u,
        same_port_iff k j,
        ==_iff h u,
      );
      distinct = del-IsDistinct same_port same_port_iff k f.device_to_host_port_map i.distinct;
    }
