-- ===== src/Coverage/Tests.antt =====
-- Coverage data of ws/libresmack_fuzz/src/feedbacks/coverage.cpp with four flags.
use resmack.Prelude.{
  ◌≡◌, refl, [], ◌∷◌, ◌++◌, true, false, some, length, get_elem?, take, drop, arith,
}
use resmack.Prelude.Outcome.{ok}
use resmack.Coverage.{CoverageData, trace_pc_guard, guard_init, number_guards, sync}
use resmack.Coverage.Guards.{count_set, trace_counts}
use resmack.Coverage.Merge.{IsFlags, union, sync-union}

abbrev ours : CoverageData
ours = record {
  fpo_saw_new = true;
  hash = 0;
  num_flags = 3;
  hit_flags = 1;
  flags = 1 ∷ 0 ∷ 0 ∷ 0 ∷ [];
}

abbrev shared : CoverageData
shared = record {
  fpo_saw_new = false;
  hash = 6;
  num_flags = 3;
  hit_flags = 0;
  flags = 0 ∷ 1 ∷ 0 ∷ 0 ∷ [];
}

ours-IsFlags : IsFlags ours.flags
ours-IsFlags = (omega arith, (omega arith, (omega arith, (omega arith, tt))))

shared-IsFlags : IsFlags shared.flags
shared-IsFlags = (omega arith, (omega arith, (omega arith, (omega arith, tt))))

sync-union_example :
    (d' : CoverageData) × (s' : CoverageData) × (sync length ours shared ≡ ok (d', s', true))
    × (d'.flags ≡ union (take 3 ours.flags) (take 3 shared.flags) ++ drop 3 ours.flags)
    × (s'.flags ≡ union (take 3 ours.flags) (take 3 shared.flags) ++ drop 3 shared.flags)
    × (d'.hit_flags ≡ 1)
sync-union_example =
    sync-union length ours shared ours-IsFlags shared-IsFlags (omega arith) (omega arith)

union_test : union (take 3 ours.flags) (take 3 shared.flags) ≡ 1 ∷ 1 ∷ 0 ∷ []
union_test = refl

trace_counts_example :
    (d' : CoverageData) × (trace_pc_guard (some 2) ours ≡ ok d')
    × (d'.hit_flags ≡ count_set d'.flags)
    × (get_elem? d'.flags 1 ≡ some 1)
    × (length d'.flags ≡ length ours.flags)
trace_counts_example = trace_counts 2 ours (omega arith) (omega arith) (omega arith) refl

guard_init_test : guard_init (0 ∷ 0 ∷ []) 5 ≡ (6 ∷ 7 ∷ [], 7)
unfolding guard_init number_guards
guard_init_test = refl
