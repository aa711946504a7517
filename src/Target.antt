-- ===== src/Target.antt =====
-- Running the program under test and timing it: ws/libresmack_fuzz/src/target.cpp, src/targets/direct.cpp,
-- include/resmack/fuzz/target.hpp and stats.def. A time is a whole number of ticks of the clock in place
-- of a double; the clock does not go back, so that a difference is not negative. The members that stats.def gives for each sample type are a function of the type. The
-- program under test, and what it does to the coverage flags, is a parameter, a function of the input.
pub mod Launch
mod Tests
use resmack.Prelude.{
  ℕ, ◌+◌, ◌-◌, ◌%◌, ◌^◌, Bool, true, false, not, ◌||◌, List, [], ◌∷◌, some, ◌==◌, if◌then◌else◌,
}
use resmack.Prelude.Int.{ℤ, negsuc}
use resmack.Prelude.Outcome.{Outcome, ok, ◌>>=◌}
use resmack.Coverage.{CoverageData, trace_pc_guard, fpo_start, fpo_stop}

pub data SampleTypes : Type 0 where
  mutate generate corpus feedback target target_reset : SampleTypes

-- The value of the enumerator.
abbrev pub number : SampleTypes → ℕ
number mutate = 0
number generate = 1
number corpus = 2
number feedback = 3
number target = 4
number target_reset = 5

abbrev pub Durations : Type 0
Durations = SampleTypes → ℕ

abbrev pub put : Durations → SampleTypes → ℕ → Durations
put d type t other = if number other == number type then t else d other

pub record TargetStats : Type 0 where
  pub exit_code : ℤ
  pub timedout : Bool
  pub crashed : Bool
  pub valid : Bool
  pub start : Durations
  pub duration : Durations
  pub stats_sample_interval : ℕ
  pub sample_ticks : ℕ

-- `TargetStats(interval)`. The first four members are not initialised: `blank` has what they hold.
unfoldable pub new_stats : TargetStats → ℕ → TargetStats
new_stats blank interval = record blank {
  start = λ type. 0;
  duration = λ type. 0;
  stats_sample_interval = interval;
  sample_ticks = 0;
}

unfoldable pub tick : TargetStats → TargetStats
tick stats = record stats { sample_ticks = (stats.sample_ticks + 1) % 2 ^ 64 }

unfoldable pub reset_stats : TargetStats → TargetStats
reset_stats stats = record stats { exit_code = negsuc 0; timedout = false; crashed = false }

-- `Clear`
unfoldable pub clear : TargetStats → TargetStats
unfolding reset_stats
clear stats = record (reset_stats stats) { duration = λ type. 0 }

-- That SAMPLED does not return.
unfoldable pub is_sampled : TargetStats → Bool
is_sampled stats = not (
    stats.stats_sample_interval == 0 || not (stats.sample_ticks % stats.stats_sample_interval == 0))

-- Both read the clock, which shows `now`, only where the tick is sampled.
unfoldable pub start_sample : SampleTypes → ℕ → TargetStats → TargetStats
unfolding is_sampled
start_sample type now stats =
    if is_sampled stats then record stats { start = put stats.start type now } else stats

unfoldable pub stop_sample : SampleTypes → ℕ → TargetStats → TargetStats
unfolding is_sampled
stop_sample type now stats =
    if is_sampled stats
    then record stats { duration = put stats.duration type (now - stats.start type) }
    else stats

-- The program under test on an input: the guards that it passes, in order, and what it returns.
abbrev pub Program : Type 0
Program = List ℕ → Outcome (List ℕ × ℤ)

unfoldable pub trace_all : List ℕ → CoverageData → Outcome CoverageData
unfolding trace_pc_guard
trace_all [] d = ok d
trace_all (guard ∷ guards) d = trace_pc_guard (some guard) d >>= trace_all guards

-- An int as a bool.
abbrev pub to_bool : ℤ → Bool
to_bool (ℤ.pos n) = not (n == 0)
to_bool (negsuc n) = true

-- RECORD_STAT around code that leaves the statistics as they are, at the clock readings `times`.
unfoldable pub sample : SampleTypes → ℕ × ℕ → TargetStats → TargetStats
unfolding start_sample stop_sample
sample type times stats = stop_sample type times.1 (start_sample type times.0 stats)

-- What the clock shows at the start and the end of the samples of one launch.
pub record LaunchTimes : Type 0 where
  pub fpo_start_at : ℕ × ℕ
  pub test_at : ℕ × ℕ
  pub fpo_stop_at : ℕ × ℕ

-- `DirectTarget::Launch`: the statistics and the coverage data, ours and the shared.
unfoldable pub launch :
    LaunchTimes
    → (List ℕ → ℕ)
    → Program
    → List ℕ
    → TargetStats
    → CoverageData
    → CoverageData
    → Outcome (TargetStats × CoverageData × CoverageData)
unfolding trace_all reset_stats sample
launch times calc_hash program output stats d s =
    let stats1 = sample feedback times.fpo_start_at (reset_stats stats) in
    program output >>= λ ran. trace_all ran.0 (fpo_start d) >>= λ d1.
    let stats2 = record (sample target times.test_at stats1) { valid = to_bool ran.1 } in
    fpo_stop calc_hash d1 s >>= λ q. ok (sample feedback times.fpo_stop_at stats2, q.0, q.1)
