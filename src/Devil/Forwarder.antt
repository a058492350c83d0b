-- ===== src/Devil/Forwarder.antt =====
-- `Forwarder` of devil/android/forwarder.py: the two maps of its singleton, under its lock. The
-- host forwarder, a program, and the device are an interface; log lines are left out.
pub mod Inverse
pub mod Cleared
pub mod Steps
mod Tests
use car_multimedia_android_a.Base.{
  ℕ, ◌==◌, ◌≡◌, Bool, true, false, not, ◌&&◌, Option, none, some, List, [], ◌∷◌, ◌++◌, String,
  str_eq, contains, if◌then◌else◌,
}
use car_multimedia_android_a.Base.Assoc.{get, put, del}

pub data Error : Type 0 where
  host_forwarder_error key_error unbound_local_error os_error value_error : Error
  command_failed device_unreachable : Error

pub data Result (A : Type 0) : Type 0 where
  raised : Error → Result A
  returned : A → Result A

-- How a command of the host forwarder ends; what it prints is given as it is split and read.
pub data Answer : Type 0 where
  timed_out no_such_file os_failed failed unexpected not_numbers : Answer
  ports : ℕ → ℕ → Answer

pub data Command : Type 0 where
  map_ports : String → ℕ → ℕ → Command
  unmap_port : String → ℕ → Command
  unmap_all : String → Command

-- The host forwarder, and the calls on a device
pub record Host : Type 1 where
  pub State : Type 0
  pub run : Command → State → Answer × State
  pub file_exists : String → State → Bool
  pub kill_server : String → State → Result (Unit {0}) × State
  pub reboot : String → State → Result (Unit {0}) × State
  pub push_and_start : String → State → Result (Unit {0}) × State

-- A device's serial number, and a port of it
abbrev pub SerialPort : Type 0
SerialPort = String × ℕ

abbrev pub same_port : SerialPort → SerialPort → Bool
same_port (s, p) (t, q) = str_eq s t && p == q

-- The attributes of the instance
pub record Forwarder : Type 0 where
  pub initialized_devices : List String
  pub device_to_host_port_map : List (SerialPort × ℕ)
  pub host_to_device_port_map : List (ℕ × SerialPort)

abbrev pub new_forwarder : Forwarder
new_forwarder = record {
  initialized_devices = [];
  device_to_host_port_map = [];
  host_to_device_port_map = [];
}

abbrev pub host_port_of : SerialPort → Forwarder → Option ℕ
host_port_of k f = get same_port k f.device_to_host_port_map

abbrev pub serial_port_of : ℕ → Forwarder → Option SerialPort
serial_port_of h f = get ◌==◌ h f.host_to_device_port_map

-- `set.discard`
abbrev pub discard : String → List String → List String
discard s [] = []
discard s (x ∷ xs) = let rest = discard s xs in if str_eq x s then rest else x ∷ rest

-- Both maps with a new pair of ports
unfoldable pub add_ports : SerialPort → ℕ → Forwarder → Forwarder
add_ports k h f = record f {
  device_to_host_port_map = put same_port k h f.device_to_host_port_map;
  host_to_device_port_map = put ◌==◌ h k f.host_to_device_port_map;
}

-- The two `del` statements: a KeyError of the second comes after the first.
unfoldable pub del_ports : SerialPort → ℕ → Forwarder → Result (Unit {0}) × Forwarder
del_ports k h f =
    let g = record f { device_to_host_port_map = del same_port k f.device_to_host_port_map } in
    elim (serial_port_of h f) [
      | none ↦ (raised key_error, g)
      | some _ ↦
          (returned tt, record g { host_to_device_port_map = del ◌==◌ h f.host_to_device_port_map })
    ]

-- `DevicePortForHostPort`
unfoldable pub device_port_for_host_port : ℕ → Forwarder → Option ℕ
device_port_for_host_port h f = elim (serial_port_of h f) [ none ↦ none | some k ↦ some k.1 ]

-- The loop of UnmapAllDevicePorts, over the items that the map had before it
unfoldable pub clear_items :
    String → List (SerialPort × ℕ) → Forwarder → Result (Unit {0}) × Forwarder
unfolding del_ports
clear_items serial [] f = (returned tt, f)
clear_items serial ((k, h) ∷ items) f =
    let (result, g) = del_ports k h f in
    let rest = clear_items serial items g in
    let skipped = clear_items serial items f in
    if str_eq k.0 serial
    then elim result [ raised e ↦ (raised e, g) | returned _ ↦ rest ]
    else skipped

module _ (H : Host) where
  abbrev pub Outcome : Type 0
  Outcome = Result (Unit {0}) × (Forwarder × H.State)

  abbrev pub and_then : Outcome → (Forwarder → H.State → Outcome) → Outcome
  and_then (raised e, w) k = (raised e, w)
  and_then (returned _, (f, s)) k = k f s

  abbrev pub with_forwarder : Forwarder → Result (Unit {0}) × H.State → Outcome
  with_forwarder f (result, s) = (result, (f, s))

  -- `_KillDeviceLocked`
  unfoldable pub kill_device : String → Forwarder → H.State → Outcome
  kill_device serial f s =
      let g = record f { initialized_devices = discard serial f.initialized_devices } in
      if H.file_exists serial s
      then with_forwarder g (H.kill_server serial s)
      else (returned tt, (g, s))

  -- The `except` of _InitDeviceLocked
  abbrev pub or_reboot : String → Outcome → Outcome
  or_reboot serial (returned _, w) = (returned tt, w)
  or_reboot serial (raised e, (f, s)) = elim e [
    | command_failed ↦ with_forwarder f (H.reboot serial s)
    | other ↦ (raised other, (f, s))
  ]

  -- `_InitDeviceLocked`
  unfoldable pub init_device : String → Forwarder → H.State → Outcome
  unfolding kill_device
  init_device serial f s =
      if contains serial f.initialized_devices
      then (returned tt, (f, s))
      else and_then (or_reboot serial (kill_device serial f s)) (λ f1 s1.
        and_then (with_forwarder f1 (H.push_and_start serial s1)) (λ f2 s2.
          (returned tt, (record f2 { initialized_devices = serial ∷ f2.initialized_devices }, s2))))

  -- A mapping that has failed. Where the device forwarder cannot be killed, the handler names an
  -- `e` that is not bound.
  abbrev pub after_failure : Outcome → Outcome
  after_failure (returned _, w) = (raised host_forwarder_error, w)
  after_failure (raised e, w) = elim e [
    | command_failed ↦ (raised unbound_local_error, w)
    | device_unreachable ↦ (raised unbound_local_error, w)
    | other ↦ (raised other, w)
  ]

  -- What the answer to a mapping makes of the maps
  unfoldable pub mapped : String → Answer → Forwarder → H.State → Outcome
  unfolding kill_device add_ports
  mapped serial timed_out f s = (raised host_forwarder_error, (f, s))
  mapped serial no_such_file f s = (raised host_forwarder_error, (f, s))
  mapped serial os_failed f s = (raised os_error, (f, s))
  mapped serial failed f s = after_failure (kill_device serial f s)
  mapped serial unexpected f s = (raised host_forwarder_error, (f, s))
  mapped serial not_numbers f s = (raised value_error, (f, s))
  mapped serial (ports device_port host_port) f s =
      (returned tt, (add_ports (serial, device_port) host_port f, s))

  -- The loop of Map
  unfoldable pub map_all : String → List (ℕ × ℕ) → Forwarder → H.State → Outcome
  unfolding mapped
  map_all serial [] f s = (returned tt, (f, s))
  map_all serial ((device_port, host_port) ∷ pairs) f s =
      let (answer, s1) = H.run (map_ports serial device_port host_port) s in
      and_then (mapped serial answer f s1) (map_all serial pairs)

  -- `Map`
  unfoldable pub map_port_pairs : List (ℕ × ℕ) → String → Forwarder → H.State → Outcome
  unfolding init_device map_all
  map_port_pairs pairs serial f s = and_then (init_device serial f s) (map_all serial pairs)

  -- What the answer to unmapping one port raises; any exit code is only logged.
  abbrev pub unmapped : Answer → Result (Unit {0})
  unmapped timed_out = raised host_forwarder_error
  unmapped no_such_file = raised os_error
  unmapped os_failed = raised os_error
  unmapped failed = returned tt
  unmapped unexpected = returned tt
  unmapped not_numbers = returned tt
  unmapped (ports _ _) = returned tt

  -- `UnmapDevicePort`
  unfoldable pub unmap_device_port : ℕ → String → Forwarder → H.State → Outcome
  unfolding del_ports
  unmap_device_port device_port serial f s = elim (host_port_of (serial, device_port) f) [
    | none ↦ (returned tt, (f, s))
    | some h ↦
        let (result, g) = del_ports (serial, device_port) h f in
        and_then (result, (g, s))
          (λ g1 s1.
            let (answer, s2) = H.run (unmap_port serial device_port) s1 in
            (unmapped answer, (g1, s2)))
  ]

  -- What the answer to unmapping all ports raises
  abbrev pub all_unmapped : Answer → Result (Unit {0})
  all_unmapped timed_out = raised host_forwarder_error
  all_unmapped no_such_file = raised os_error
  all_unmapped os_failed = raised os_error
  all_unmapped failed = raised host_forwarder_error
  all_unmapped unexpected = returned tt
  all_unmapped not_numbers = returned tt
  all_unmapped (ports _ _) = returned tt

  -- `UnmapAllDevicePorts`
  unfoldable pub unmap_all_device_ports : String → Forwarder → H.State → Outcome
  unfolding clear_items kill_device
  unmap_all_device_ports serial f s =
      let (answer, s1) = H.run (unmap_all serial) s in
      and_then (all_unmapped answer, (f, s1))
        (λ f1 s2.
          let (result, g) = clear_items serial f1.device_to_host_port_map f1 in
          and_then (result, (g, s2)) (kill_device serial))
