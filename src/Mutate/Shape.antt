-- ===== src/Mutate/Shape.antt =====
-- What a mutation may do to a recorded generation, described without indices.
use resmack.Prelude.{
  ℕ, zero, suc, ◌+◌, ◌≤◌, ◌<◌, ◌≡◌, ◌⊎◌, Bool-cases, inl, inr, List, [], ◌∷◌, leb, if◌then◌else◌,
  arith, length, drop,
}
use resmack.Rand.{RandSnapshot}
use resmack.Mutate.{skip_deeper}

-- Without the leading entries that lie deeper: the calls of the rule that stood before them.
unfoldable pub drop_deeper : ℕ → List RandSnapshot → List RandSnapshot
drop_deeper depth [] = []
drop_deeper depth (x ∷ rest) = if leb x.ref_depth depth then x ∷ rest else drop_deeper depth rest

-- `ys` comes from `xs` by replacing `n` entries. A replaced entry keeps its depth and its rule, gets
-- a maximal depth that is below `total` or no greater than before, and loses the calls below it.
pub data Mutated (total : ℕ) : ℕ → List RandSnapshot → List RandSnapshot → Type 0 where
  done : Mutated total zero [] []
  keep :
      {n : ℕ} {xs ys : List RandSnapshot} (x : RandSnapshot)
      → Mutated total n xs ys
      → Mutated total n (x ∷ xs) (x ∷ ys)
  change :
      {n : ℕ} {xs ys : List RandSnapshot} (x y : RandSnapshot)
      → y.ref_depth ≡ x.ref_depth
      → y.rule_idx ≡ x.rule_idx
      → (y.max_depth < total) ⊎ (y.max_depth ≤ x.max_depth)
      → Mutated total n (drop_deeper x.ref_depth xs) ys
      → Mutated total (suc n) (x ∷ xs) (y ∷ ys)

drop-suc {ℓ} :
    {A : Type ℓ} (k : ℕ) (x : A) (xs ys : List A) → drop k xs ≡ x ∷ ys → drop (suc k) xs ≡ ys
drop-suc zero x [] ys e = cc
drop-suc zero x (y ∷ xs) ys e = ground arith
drop-suc (suc k) x [] ys e = cc
drop-suc (suc k) x (y ∷ xs) ys e = drop-suc k x xs ys e

-- The index at which the loop of `CascadeMutatedState` stops, and what stands from there on.
pub drop-skip_deeper :
    (depth idx : ℕ) (rest orig : List RandSnapshot)
    → drop idx orig ≡ rest
    → drop (skip_deeper depth idx rest) orig ≡ drop_deeper depth rest
unfolding skip_deeper drop_deeper
drop-skip_deeper depth idx [] orig e = e
drop-skip_deeper depth idx (x ∷ rest) orig e = elim (Bool-cases (leb x.ref_depth depth)) [
  | inl stop ↦ rw stop e
  | inr deeper ↦ rw deeper (drop-skip_deeper depth (suc idx) rest orig (drop-suc idx x orig rest e))
]

pub skip_deeper_bounds :
    (depth idx : ℕ) (rest : List RandSnapshot)
    → (idx ≤ skip_deeper depth idx rest) × (skip_deeper depth idx rest ≤ idx + length rest)
unfolding skip_deeper
skip_deeper_bounds depth idx [] = omega arith
skip_deeper_bounds depth idx (x ∷ rest) = ground (arith, skip_deeper_bounds depth (suc idx) rest)
