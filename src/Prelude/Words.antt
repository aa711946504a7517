-- ===== src/Prelude/Words.antt =====
-- 32-bit words as native numbers below 2 ^ 32: shifts, and the few facts about `|` and `^` that the
-- generator's invariant rests on.
use Prim.Native.Nat.{
  ℕ, zero, suc, ◌+◌, ◌*◌, ◌/◌, ◌%◌, ◌^◌, ◌≤◌, ◌<◌, max, differ, digits, bitwise, bit_or, bit_xor,
  bit_or-bitwise, bit_xor-bitwise,
}
use mathlib.Core.Path.{◌≡◌, refl, sym}
use native.Mathlib.Decide.{dec_lt}
use native.Mathlib.Nat.{le_refl, pow-suc}
use native.Mathlib.Omega.{arith}

abbrev pub u32_mod : ℕ
u32_mod = 2 ^ 32

abbrev pub u64_mod : ℕ
u64_mod = 2 ^ 64

-- `x << k` and `x >> k` on a uint32_t.
abbrev pub shl32 : ℕ → ℕ → ℕ
shl32 x k = x * 2 ^ k % 2 ^ 32

abbrev pub shr32 : ℕ → ℕ → ℕ
shr32 x k = x / 2 ^ k

-- The library defines both operations by a recursion that counts the digits to go; any count that
-- is large enough gives the same result. `m` bounds the depth of the induction.
digits-bitwise :
    (z : ℕ → ℕ) (f : ℕ → ℕ → ℕ) (bound count a b : ℕ)
    → a ≤ count
    → count ≤ bound
    → digits z f count a b ≡ bitwise z f a b
digits-bitwise z f bound zero zero b small fits = refl
digits-bitwise z f bound zero (suc a) b small fits = absurd (omega arith)
digits-bitwise z f bound (suc count) zero b small fits = refl
digits-bitwise z f zero (suc count) (suc a) b small fits = absurd (omega arith)
digits-bitwise z f (suc bound) (suc count) (suc a) b small fits =
    let left = digits-bitwise z f bound count (suc a / 2) (b / 2) (omega arith) (omega arith) in
    let right = digits-bitwise z f bound a (suc a / 2) (b / 2) (omega arith) (omega arith) in
    omega (arith, left, right)

-- One digit at a time, from the lowest.
bit_xor_step : (a b : ℕ) → bit_xor a b ≡ bit_xor (a / 2) (b / 2) * 2 + differ (a % 2) (b % 2)
bit_xor_step zero b = simp bit_xor-bitwise (omega arith)
bit_xor_step (suc a) b = simp bit_xor-bitwise (
    omega (arith, digits-bitwise (λ y. y) differ a a (suc a / 2) (b / 2) (omega arith) (le_refl _)))

bit_or_step : (x y : ℕ) → bit_or x y ≡ bit_or (x / 2) (y / 2) * 2 + max (x % 2) (y % 2)
bit_or_step zero y = simp bit_or-bitwise (omega arith)
bit_or_step (suc x) y =
    simp bit_or-bitwise
      (omega (arith, digits-bitwise (λ d. d) max x x (suc x / 2) (y / 2) (omega arith) (le_refl _)))

differ_digit : (x y : ℕ) → x < 2 → y < 2 → (differ x y < 2) × (differ x y ≡ 0 → x ≡ y)
differ_digit zero zero h k = (omega arith, λ e. refl)
differ_digit zero (suc y) h k = (k, λ e. sym e)
differ_digit (suc zero) zero h k = (h, λ e. e)
differ_digit (suc zero) (suc zero) h k = (omega arith, λ e. refl)
differ_digit (suc zero) (suc (suc y)) h k = absurd (omega arith)
differ_digit (suc (suc x)) y h k = absurd (omega arith)

eq_of_bit_xor_fuel : (n a b : ℕ) → a + b ≤ n → bit_xor a b ≡ 0 → a ≡ b
eq_of_bit_xor_fuel zero a b h e = omega arith
eq_of_bit_xor_fuel (suc n) a b h e = elim (dec_lt 0 (a + b)) [
  | yes p ↦
      let high : bit_xor (a / 2) (b / 2) ≡ 0 = omega (arith, bit_xor_step a b) in
      let low : differ (a % 2) (b % 2) ≡ 0 = omega (arith, bit_xor_step a b) in
      let same : a % 2 ≡ b % 2 = (differ_digit (a % 2) (b % 2) (omega arith) (omega arith)).1 low in
      omega (arith, eq_of_bit_xor_fuel n (a / 2) (b / 2) (omega arith) high)
  | no p ↦ omega arith
]

-- Two words whose exclusive or is 0 are equal.
pub eq_of_bit_xor : (a b : ℕ) → bit_xor a b ≡ 0 → a ≡ b
eq_of_bit_xor a b e = eq_of_bit_xor_fuel (a + b) a b (le_refl _) e

pub bit_xor-lt : (k a b : ℕ) → a < 2 ^ k → b < 2 ^ k → bit_xor a b < 2 ^ k
bit_xor-lt zero zero zero h k = omega arith
bit_xor-lt zero zero (suc b) h k = absurd (omega arith)
bit_xor-lt zero (suc a) b h k = absurd (omega arith)
bit_xor-lt (suc k) a b ha hb = omega (
  arith,
  pow-suc 2 k,
  bit_xor_step a b,
  differ_digit (a % 2) (b % 2) (omega arith) (omega arith),
  bit_xor-lt k (a / 2) (b / 2) (omega (arith, pow-suc 2 k)) (omega (arith, pow-suc 2 k)),
)

pub bit_or-lt : (k a b : ℕ) → a < 2 ^ k → b < 2 ^ k → bit_or a b < 2 ^ k
bit_or-lt zero zero zero h k = omega arith
bit_or-lt zero zero (suc b) h k = absurd (omega arith)
bit_or-lt zero (suc a) b h k = absurd (omega arith)
bit_or-lt (suc k) a b ha hb = omega (
  arith,
  pow-suc 2 k,
  bit_or_step a b,
  bit_or-lt k (a / 2) (b / 2) (omega (arith, pow-suc 2 k)) (omega (arith, pow-suc 2 k)),
)

zeros_of_bit_or_fuel : (n a b : ℕ) → a + b ≤ n → bit_or a b ≡ 0 → (a ≡ 0) × (b ≡ 0)
zeros_of_bit_or_fuel zero a b h e = omega arith
zeros_of_bit_or_fuel (suc n) a b h e = elim (dec_lt 0 (a + b)) [
  | yes p ↦
      let e' : bit_or (a / 2) (b / 2) ≡ 0 = omega (arith, bit_or_step a b) in
      omega (arith, bit_or_step a b, zeros_of_bit_or_fuel n (a / 2) (b / 2) (omega arith) e')
  | no p ↦ omega arith
]

-- An or that is 0 has both sides 0.
pub zeros_of_bit_or : (a b : ℕ) → bit_or a b ≡ 0 → (a ≡ 0) × (b ≡ 0)
zeros_of_bit_or a b e = zeros_of_bit_or_fuel (a + b) a b (le_refl _) e
