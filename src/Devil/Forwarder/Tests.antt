-- ===== src/Devil/Forwarder/Tests.antt =====
-- A host forwarder that gives out ports by counting, and one that gives out a port twice.
use car_multimedia_android_a.Base.{ℕ, suc, ◌≡◌, refl, false, none, [], ◌∷◌, str_eq, if◌then◌else◌}
use car_multimedia_android_a.Base.Assoc.{get, put, del}
use car_multimedia_android_a.Devil.Forwarder.{
  mapped, Forwarder, new_forwarder, Host, raised, returned, key_error, Answer, ports, Command,
  map_ports, unmap_port, unmap_all, host_port_of, map_port_pairs, unmap_device_port,
  unmap_all_device_ports, init_device, add_ports, kill_device,
}
use car_multimedia_android_a.Devil.Forwarder.Inverse.{IsInverse}
use car_multimedia_android_a.Devil.Forwarder.Cleared.{unmap_all-host_port_of}
use car_multimedia_android_a.Devil.Forwarder.Steps.{Steps, done, then_step, maps, Steps-IsInverse}

-- The state is the next host port.
abbrev counting_run : Command → ℕ → Answer × ℕ
counting_run (map_ports serial d h) n = (ports d n, suc n)
counting_run (unmap_port serial d) n = (ports 0 0, n)
counting_run (unmap_all serial) n = (ports 0 0, n)

abbrev counting : Host
counting = record {
  State = ℕ;
  run = counting_run;
  file_exists = λ _ _. false;
  kill_server = λ _ n. (returned tt, n);
  reboot = λ _ n. (returned tt, n);
  push_and_start = λ _ n. (returned tt, n);
}

abbrev two_mapped : Forwarder
two_mapped = (map_port_pairs counting ((80, 0) ∷ (81, 0) ∷ []) "serial" new_forwarder 1000).1.0

two_mapped-Steps : Steps counting new_forwarder two_mapped
unfolding get init_device kill_device add_ports put mapped
two_mapped-Steps =
    then_step done (maps ((80, 0) ∷ (81, 0) ∷ []) "serial" 1000 ((refl, refl), ((refl, refl), tt)))

abbrev Inverse : Type 0
Inverse = IsInverse two_mapped

Steps-IsInverse_example : Inverse
Steps-IsInverse_example = Steps-IsInverse counting two_mapped-Steps

unmap_all-host_port_of_example :
    host_port_of ("serial", 80) (unmap_all_device_ports counting "serial" two_mapped 1002).1.0
    ≡ (if str_eq "serial" "serial" then none else host_port_of ("serial", 80) two_mapped)
unmap_all-host_port_of_example =
    unmap_all-host_port_of counting "serial" two_mapped 1002 ("serial", 80)
      (Steps-IsInverse counting two_mapped-Steps) refl

-- A host port that is given out for two device ports can be unmapped once only.
abbrev given_twice : Forwarder
given_twice = add_ports ("serial", 81) 1000 (add_ports ("serial", 80) 1000 new_forwarder)

abbrev unmapped_once : Forwarder
unmapped_once = (unmap_device_port counting 80 "serial" given_twice 0).1.0

unmapped_twice : (unmap_device_port counting 81 "serial" unmapped_once 0).0 ≡ raised key_error
unfolding unmap_device_port get add_ports put del
unmapped_twice = refl
