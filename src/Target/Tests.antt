-- ===== src/Target/Tests.antt =====
-- A launch of ws/libresmack_fuzz/src/targets/direct.cpp whose tick is sampled.
use resmack.Prelude.{ℕ, ◌≡◌, refl, true, false, List, [], ◌∷◌, length}
use resmack.Prelude.Int.{ℤ, pos, negsuc}
use resmack.Prelude.Outcome.{Outcome, ok, fail}
use resmack.Coverage.{CoverageData, trace_pc_guard, fpo_start, fpo_stop, sync, merge_loop}
use resmack.Target.{
  TargetStats, LaunchTimes, Program, is_sampled, launch, sample, start_sample, stop_sample,
  reset_stats, trace_all, to_bool,
}
use resmack.Target.Launch.{Timed, launch_reports}

abbrev no_hits : CoverageData
no_hits = record { fpo_saw_new = false; hash = 0; num_flags = 2; hit_flags = 0; flags = 0 ∷ 0 ∷ [] }

abbrev times : LaunchTimes
times = record { fpo_start_at = (1, 3); test_at = (3, 9); fpo_stop_at = (10, 11) }

-- A program that passes guard 2 and returns 0.
abbrev program : Program
program input = ok (2 ∷ [], pos 0)

abbrev stats : TargetStats
stats = record {
  exit_code = pos 0;
  timedout = true;
  crashed = true;
  valid = true;
  start = λ type. 0;
  duration = λ type. 0;
  stats_sample_interval = 4;
  sample_ticks = 8;
}

abbrev after :
    Outcome (TargetStats × CoverageData × CoverageData) → TargetStats × CoverageData × CoverageData
after (ok q) = q
after (fail e) = (stats, no_hits, no_hits)

abbrev launched : TargetStats × CoverageData × CoverageData
launched = after (launch times length program (b'a' ∷ []) stats no_hits no_hits)

launches :
    launch times length program (b'a' ∷ []) stats no_hits no_hits
    ≡ ok (launched.0, launched.1, launched.2)
unfolding launch sample start_sample stop_sample reset_stats trace_all trace_pc_guard fpo_start
    fpo_stop sync merge_loop is_sampled
launches = refl

launch_reports_example :
    (guards : List ℕ) × (result : ℤ) × (d1 : CoverageData) × (program (b'a' ∷ [])
      ≡ ok (guards, result))
    × (trace_all guards (fpo_start no_hits) ≡ ok d1)
    × (fpo_stop length d1 no_hits ≡ ok (launched.1, launched.2))
    × (launched.0.valid ≡ to_bool result)
    × (launched.0.exit_code ≡ negsuc 0)
    × Timed times stats launched.0
launch_reports_example =
    launch_reports times length program (b'a' ∷ []) stats launched.0 no_hits no_hits launched.1
      launched.2 launches

-- On the next tick nothing is timed.
unsampled_test : is_sampled (record stats { sample_ticks = 9 }) ≡ false
unfolding is_sampled
unsampled_test = refl

-- An input that the program ran on, returning 0, is not valid.
not_valid : launched.0.valid ≡ false
unfolding launch sample start_sample stop_sample reset_stats trace_all trace_pc_guard fpo_start
    fpo_stop sync merge_loop is_sampled
not_valid = refl
