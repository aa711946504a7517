-- ===== src/Coverage/Merge.antt =====
-- That `Sync` leaves our flags and the shared ones with the edges that either had
-- (ws/libresmack_fuzz/src/feedbacks/coverage.cpp).
use Prim.Native.Nat.{bit_or, max}
use resmack.Prelude.{
  ℕ, zero, suc, ◌≤◌, ◌<◌, ◌≡◌, refl, ap, ◌||◌, List, [], ◌∷◌, ◌++◌, if◌then◌else◌, length, take,
  drop, arith, All,
}
use resmack.Prelude.Outcome.{ok}
use resmack.Coverage.{CoverageData, Merged, merge_loop, has_more, sync}

-- The larger flag at each of the first places.
abbrev pub union : List ℕ → List ℕ → List ℕ
union [] ys = []
union (x ∷ xs) [] = []
union (x ∷ xs) (y ∷ ys) = max x y ∷ union xs ys

-- Flags that are 0 or 1.
abbrev pub IsFlags : List ℕ → Type 0
IsFlags = All (λ (x : ℕ). x < 2)

or_flag : (x y : ℕ) → x < 2 → y < 2 → bit_or y x ≡ max x y
or_flag zero zero h k = refl
or_flag zero (suc zero) h k = refl
or_flag (suc zero) zero h k = refl
or_flag (suc zero) (suc zero) h k = refl
or_flag zero (suc (suc y)) h k = absurd (omega arith)
or_flag (suc zero) (suc (suc y)) h k = absurd (omega arith)
or_flag (suc (suc x)) y h k = absurd (omega arith)

merge_loop-union :
    (n : ℕ) (xs ys : List ℕ)
    → IsFlags xs
    → IsFlags ys
    → n ≤ length xs
    → n ≤ length ys
    → (q : Merged) × (merge_loop n xs ys ≡ ok q)
      × (q.ours ≡ union (take n xs) (take n ys) ++ drop n xs)
      × (q.shared ≡ union (take n xs) (take n ys) ++ drop n ys)
unfolding merge_loop
merge_loop-union zero xs ys f g h k = (_, refl, refl, refl)
merge_loop-union (suc n) [] ys f g h k = absurd (omega arith)
merge_loop-union (suc n) (x ∷ xs) [] f g h k = absurd (omega arith)
merge_loop-union (suc n) (x ∷ xs) (y ∷ ys) f g h k =
    let (q, run, ours, shared) = merge_loop-union n xs ys f.1 g.1 (omega arith) (omega arith) in
    (
      record {
        ours = bit_or y x ∷ q.ours;
        shared = bit_or y x ∷ q.shared;
        we_had_new = has_more x y || q.we_had_new;
        they_had_new = has_more y x || q.they_had_new;
      },
      rw run refl,
      rw (or_flag x y f.0 g.0) (ap (λ l. max x y ∷ l) ours),
      rw (or_flag x y f.0 g.0) (ap (λ l. max x y ∷ l) shared),
    )

-- Where all flags are 0 or 1 and both lists have `num_flags` of them, `Sync` returns whether the process
-- saw a new edge. Among the first `num_flags` places both lists then have the larger of the two flags,
-- behind them each is as it was; `hit_flags` is as it was too, and so counts no edge that came from the
-- shared data.
pub sync-union :
    (calc_hash : List ℕ → ℕ) (d s : CoverageData)
    → IsFlags d.flags
    → IsFlags s.flags
    → d.num_flags ≤ length d.flags
    → d.num_flags ≤ length s.flags
    → (d' : CoverageData) × (s' : CoverageData) × (sync calc_hash d s ≡ ok (d', s', d.fpo_saw_new))
      × (d'.flags
          ≡ union (take d.num_flags d.flags) (take d.num_flags s.flags) ++ drop d.num_flags d.flags)
      × (s'.flags
          ≡ union (take d.num_flags d.flags) (take d.num_flags s.flags) ++ drop d.num_flags s.flags)
      × (d'.hit_flags ≡ d.hit_flags)
unfolding sync
sync-union calc_hash d s f g h k =
    let (q, run, ours, shared) = merge_loop-union d.num_flags d.flags s.flags f g h k in
    let changed = q.we_had_new || q.they_had_new in
    let h = calc_hash (take d.num_flags q.ours) in
    (
      record d { flags = q.ours; hash = if changed then h else d.hash },
      record s { flags = q.shared; hash = if changed then h else s.hash },
      rw run refl,
      ours,
      shared,
      refl,
    )
