-- ===== src/Battor/Tests.antt =====
-- A wrapper of a shell that never exits by itself, on a clock that only sleeping moves.
use car_multimedia_android_a.Base.{ℕ, ◌+◌, ◌/◌, ◌≡◌, refl, true, false, none, some, arith}
use car_multimedia_android_a.PyUtils.Clock.{IsLawful}
use car_multimedia_android_a.Battor.Text.{strip, is_hexadecimal}
use car_multimedia_android_a.Battor.Wrapper.{
  Host, World, returned, clock_of, new_wrapper, start_shell,
}
use car_multimedia_android_a.Battor.Wrapper.Session.{stop_shell, start_tracing}
use car_multimedia_android_a.Battor.Running.Reachable.{
  done, then_step, starts_shell, starts_tracing, IsRunning, Steps-IsRunning,
}
use car_multimedia_android_a.Battor.Running.Stopped.{stop_shell-IsStopped}

abbrev host : Host
host = record {
  State = ℕ;
  Shell = ℕ;
  Code = ℕ;
  time = λ t. t;
  sleep = λ n t. t + (n + 9) / 10;
  popen = λ _ t. (returned 7, t);
  poll = λ _ _. none;
  kill = λ _ t. t;
  ask = λ _ _ t. (returned "Done.", t + 1);
  named_temporary_file = λ t. (returned "/tmp/log", t);
  read = λ _ _. returned "1.0";
  is_network_io_enabled = λ _. true;
  insert = λ _ _ t. (returned tt, t);
  fetch_path = λ _ t. (returned "/bin/tool", t);
  fetch_path_with_version = λ _ t. (returned ("/fw.hex", "new"), t);
  check_output = λ _ t. (returned tt, t);
}

host-IsLawful : IsLawful (clock_of host)
host-IsLawful = record { time-sleep = λ n s. omega arith }

abbrev fresh : World host
fresh = record { battor = new_wrapper host (some "/dev/ttyUSB0") "agent" none; host = 0 }

abbrev opened : World host
opened = record fresh { battor = record (fresh.battor) { battor_shell = some 7 } }

abbrev flashed : World host
flashed = (start_tracing host (start_shell host fresh).1).1

abbrev Running : Type 0
Running = IsRunning host flashed

Steps-IsRunning_example : Running
Steps-IsRunning_example =
    Steps-IsRunning host (some "/dev/ttyUSB0") "agent" none 0 flashed
      (then_step (then_step done starts_shell) starts_tracing)

stop_shell-IsStopped_example :
    ((stop_shell host (some 2) opened).0 ≡ returned tt)
    × ((stop_shell host (some 2) opened).1.battor.battor_shell ≡ none)
stop_shell-IsStopped_example =
    stop_shell-IsStopped host host-IsLawful (some 2) opened 7 "Done." 1 refl refl refl

stripped : strip "\t 1a2b \n" ≡ "1a2b"
unfolding strip
stripped = refl

all_stripped : strip " \n" ≡ ""
unfolding strip
all_stripped = refl

hexadecimal : is_hexadecimal "0x1aF\n" ≡ true
unfolding is_hexadecimal
hexadecimal = refl

not_hexadecimal : is_hexadecimal "unknown" ≡ false
unfolding is_hexadecimal
not_hexadecimal = refl

two_prefixes : is_hexadecimal "0x0Xff" ≡ false
unfolding is_hexadecimal
two_prefixes = refl
