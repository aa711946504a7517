-- ===== src/Coverage.antt =====
-- Feedback by covered edges: ws/libresmack_fuzz/src/feedbacks/coverage.cpp and
-- include/resmack/fuzz/feedbacks/coverage.hpp. A flag is a byte, and the flags of a `CoverageData` are a
-- list. The hash (XXH3) is a parameter. The memory mapping of the constructor is left out.
pub mod Guards
pub mod Merge
mod Tests
use Prim.Native.Nat.{bit_or, bit_and}
use resmack.Prelude.{
  ℕ, zero, suc, ◌+◌, ◌-◌, ◌%◌, ◌^◌, Bool, true, false, not, ◌||◌, List, [], ◌∷◌, Option, none, some,
  ◌==◌, if◌then◌else◌, length, get_elem?, set, take, replicate,
}
use resmack.Prelude.Outcome.{Outcome, Fault, ok, fail, or_fail, ◌>>=◌}
use resmack.Corpus.{FeedbackStats}

pub record CoverageData : Type 0 where
  pub fpo_saw_new : Bool
  pub hash : ℕ
  pub num_flags : ℕ
  pub hit_flags : ℕ
  pub flags : List ℕ

-- The zeroed data of the constructor, with room for `max_cov_flags` flags.
unfoldable pub new_data : ℕ → ℕ → CoverageData
new_data max_cov_flags num_cov_flags = record {
  fpo_saw_new = false;
  hash = 0;
  num_flags = num_cov_flags;
  hit_flags = 0;
  flags = replicate max_cov_flags 0;
}

-- The guards from number `n` + 1 on, which are 32 bits wide.
unfoldable pub number_guards : ℕ → List ℕ → List ℕ
number_guards n [] = []
number_guards n (x ∷ rest) = (n + 1) % 2 ^ 32 ∷ number_guards (n + 1) rest

-- `HandleSanitizerCovTracePcGuardInit` on the guards from `start` to `stop`, and `NUM_COV_FLAGS`.
unfoldable pub guard_init : List ℕ → ℕ → List ℕ × ℕ
guard_init [] n = ([], n)
guard_init (x ∷ rest) n =
    if x == 0 then (number_guards n (x ∷ rest), n + length (x ∷ rest)) else (x ∷ rest, n)

-- `HandleSanitizerCovTracePcGuard` where `FPO_COV_DATA` points to `d`; a null `guard` is none.
unfoldable pub trace_pc_guard : Option ℕ → CoverageData → Outcome CoverageData
trace_pc_guard none d = ok d
trace_pc_guard (some guard) d =
    if guard == 0
    then ok d
    else (or_fail (get_elem? d.flags (guard - 1)) Fault.out_of_range >>= λ old. ok (record d {
      flags = set d.flags (guard - 1) 1;
      fpo_saw_new = d.fpo_saw_new || old == 0;
      hit_flags = (d.hit_flags + (if old == 0 then 1 else 0)) % 2 ^ 64;
    }))

-- `FPOStart`, beside setting `FPO_COV_DATA`.
unfoldable pub fpo_start : CoverageData → CoverageData
fpo_start d = record d { fpo_saw_new = false }

-- What the loop of `Sync` leaves: our flags, the shared ones, `we_had_new` and `they_had_new`.
pub record Merged : Type 0 where
  pub ours : List ℕ
  pub shared : List ℕ
  pub we_had_new : Bool
  pub they_had_new : Bool

-- a & ~b on uint64_t, as a test.
abbrev pub has_more : ℕ → ℕ → Bool
has_more a b = not (bit_and a (2 ^ 64 - 1 - b) == 0)

unfoldable pub merge_loop : ℕ → List ℕ → List ℕ → Outcome Merged
merge_loop zero ours shared =
    ok (record { ours = ours; shared = shared; we_had_new = false; they_had_new = false })
merge_loop (suc n) [] shared = fail Fault.out_of_range
merge_loop (suc n) (x ∷ ours) [] = fail Fault.out_of_range
merge_loop (suc n) (x ∷ ours) (y ∷ shared) = merge_loop n ours shared >>= λ rest. ok (record {
  ours = bit_or y x ∷ rest.ours;
  shared = bit_or y x ∷ rest.shared;
  we_had_new = has_more x y || rest.we_had_new;
  they_had_new = has_more y x || rest.they_had_new;
})

-- `Sync`: our data, the shared data and the return value.
unfoldable pub sync :
    (List ℕ → ℕ) → CoverageData → CoverageData → Outcome (CoverageData × CoverageData × Bool)
sync calc_hash d s = merge_loop d.num_flags d.flags s.flags >>= λ q.
    let changed = q.we_had_new || q.they_had_new in
    let h = calc_hash (take d.num_flags q.ours) in
    ok (
      record d { flags = q.ours; hash = if changed then h else d.hash },
      record s { flags = q.shared; hash = if changed then h else s.hash },
      d.fpo_saw_new,
    )

-- `FPOStop`, beside setting `FPO_COV_DATA`.
unfoldable pub fpo_stop :
    (List ℕ → ℕ) → CoverageData → CoverageData → Outcome (CoverageData × CoverageData)
fpo_stop calc_hash d s =
    let synced = sync calc_hash d s >>= λ q. ok (q.0, q.1) in
    if d.fpo_saw_new || not (s.hash == d.hash) then synced else ok (d, s)

unfoldable pub get_stats : CoverageData → FeedbackStats
get_stats d = record { new_coverage = d.fpo_saw_new; key = d.hash; num = d.hit_flags }
