-- ===== src/Fuzz/Main/WoundUp.antt =====
-- How `main` of ws/libresmack_fuzz_main/src/main.cpp winds up its tracers.
use resmack.Prelude.{ℕ, Bool, true, ◌||◌, List, [], ◌∷◌, Option, none, some, ltb, if◌then◌else◌}
use resmack.Fuzz.Options.{FuzzOptions}
use resmack.Fuzz.{reached_max}
use resmack.Fuzz.Main.{
  Act, start_tracer, start_monitor, start_timeout_monitor, clear_run, kill_process, join_monitor,
  join_timeout_monitor, Glance, tracer_stop,
}

-- The tracers or processes of the acts of one sort.
abbrev pub numbers : (Act → Option ℕ) → List Act → List ℕ
numbers sort [] = []
numbers sort (a ∷ acts) = elim (sort a) [
  | none ↦ numbers sort acts
  | some n ↦ n ∷ numbers sort acts
]

abbrev pub watched : Act → Option ℕ
watched (start_timeout_monitor idx) = some idx
watched a = none

abbrev pub made : Act → Option ℕ
made (start_tracer idx) = some idx
made a = none

abbrev pub monitored : Act → Option ℕ
monitored (start_monitor idx) = some idx
monitored a = none

abbrev pub told : Act → Option ℕ
told (clear_run idx) = some idx
told a = none

abbrev pub killed : Act → Option ℕ
killed (kill_process pid) = some pid
killed a = none

abbrev pub awaited : Act → Option ℕ
awaited (join_timeout_monitor idx) = some idx
awaited a = none

abbrev pub monitor_awaited : Act → Option ℕ
monitor_awaited (join_monitor idx) = some idx
monitor_awaited a = none

-- The pids that the tracers have, of processes that have been launched.
abbrev pub live_pids : (ℕ → Option ℕ) → List ℕ → List ℕ
live_pids traced_pid [] = []
live_pids traced_pid (idx ∷ rest) = elim (traced_pid idx) [
  | none ↦ live_pids traced_pid rest
  | some pid ↦ if ltb 0 pid then pid ∷ live_pids traced_pid rest else live_pids traced_pid rest
]

-- The test of FuzzLoop, or the signal.
abbrev pub done : FuzzOptions → Glance → Bool
done opts glance = reached_max opts glance.state || glance.shutting_down

module _ (pids : ℕ → Option ℕ) where
  abbrev stop_one : ℕ → List Act
  stop_one idx = tracer_stop true idx (pids idx)
