-- ===== src/Coverage/Guards.antt =====
-- The counter of covered edges (ws/libresmack_fuzz/src/feedbacks/coverage.cpp).
use resmack.Prelude.{
  ℕ, zero, suc, ◌+◌, ◌-◌, ◌%◌, ◌^◌, ◌≤◌, ◌<◌, ◌≡◌, refl, false, List, [], ◌∷◌, some, ◌==◌,
  if◌then◌else◌, length, get_elem?, set, arith, get_elem?_below, length-set, get_elem?-set_self,
  ◌||◌,
}
use resmack.Prelude.Outcome.{ok}
use resmack.Coverage.{CoverageData, trace_pc_guard}

-- How many flags are set.
abbrev pub count_set : List ℕ → ℕ
count_set [] = 0
count_set (x ∷ xs) = let n = count_set xs in if x == 0 then n else suc n

count_set-set :
    (l : List ℕ) (i : ℕ) {old : ℕ}
    → get_elem? l i ≡ some old
    → count_set (set l i 1) ≡ count_set l + (if old == 0 then 1 else 0)
count_set-set [] i e = cc
count_set-set (x ∷ l) zero e = ground arith
count_set-set (x ∷ l) (suc i) e = ground (arith, count_set-set l i e)

count_set-le : (l : List ℕ) → count_set l ≤ length l
count_set-le [] = omega arith
count_set-le (x ∷ l) = ground (arith, count_set-le l)

-- A hit of a guard that is numbered within the flags returns: where `hit_flags` is the number of flags
-- that are set, below 2 ^ 64 flags, it is so afterwards, and the flag of the guard is set.
pub trace_counts :
    (guard : ℕ) (d : CoverageData)
    → 0 < guard
    → guard ≤ length d.flags
    → length d.flags < 2 ^ 64
    → d.hit_flags ≡ count_set d.flags
    → (d' : CoverageData) × (trace_pc_guard (some guard) d ≡ ok d')
      × (d'.hit_flags ≡ count_set d'.flags)
      × (get_elem? d'.flags (guard - 1) ≡ some 1)
      × (length d'.flags ≡ length d.flags)
unfolding trace_pc_guard
trace_counts guard d pos inside small counted =
    let (old, at) = get_elem?_below d.flags (guard - 1) (omega (arith, pos, inside)) in
    let l = set d.flags (guard - 1) 1 in
    let numbered : (guard == 0) ≡ false = ground arith in
    let new : ℕ = if old == 0 then 1 else 0 in
    let more : count_set l ≡ count_set d.flags + new = count_set-set d.flags (guard - 1) at in
    let size : length l ≡ length d.flags = length-set d.flags (guard - 1) 1 in
    let fits : d.hit_flags + new < 2 ^ 64 =
      omega (arith, counted, more, size, small, count_set-le l) in
    (
      record d {
        flags = l;
        fpo_saw_new = d.fpo_saw_new || old == 0;
        hit_flags = (d.hit_flags + new) % 2 ^ 64;
      },
      rw numbered (rw at refl),
      omega (arith, counted, more, fits),
      get_elem?-set_self d.flags (guard - 1) 1 (omega (arith, pos, inside)),
      size,
    )
