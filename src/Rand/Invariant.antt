-- ===== src/Rand/Invariant.antt =====
-- The generator stays inside 32 bits and never falls into the all-zero state, from which xoshiro
-- would give zeros for ever and at which `SetState` raises SIGINT.
use Prim.Native.Nat.{bit_xor}
use resmack.Prelude.{ℕ, ◌-◌, ◌/◌, ◌^◌, ◌<◌, ◌≡◌, refl, true, false, Bool-cases, inl, inr, arith}
use resmack.Prelude.Words.{shl32, shr32, eq_of_bit_xor, bit_xor-lt, bit_or-lt, zeros_of_bit_or}
use resmack.Rand.{Rand, RandState, rotl, next_result, next_state, next, all_zero}

pub record IsWords (s : RandState) : Type 0 where
  pub w0 : s.s0 < 2 ^ 32
  pub w1 : s.s1 < 2 ^ 32
  pub w2 : s.s2 < 2 ^ 32
  pub w3 : s.s3 < 2 ^ 32

-- A state that the generator may be in.
pub record IsSeeded (s : RandState) : Type 0 where
  pub words : IsWords s
  pub nonzero : all_zero s ≡ false

div-lt : (x d n : ℕ) → x < n → x / d < n
div-lt x d n h = grind arith

rotl-lt : (x k : ℕ) → x < 2 ^ 32 → rotl x k < 2 ^ 32
unfolding rotl
rotl-lt x k h =
    bit_or-lt 32 (shl32 x k) (shr32 x (32 - k)) (omega arith) (div-lt x (2 ^ (32 - k)) (2 ^ 32) h)

rotl_eleven_zero : (x : ℕ) → x < 2 ^ 32 → rotl x 11 ≡ 0 → x ≡ 0
unfolding rotl
rotl_eleven_zero x h e = omega (arith, zeros_of_bit_or (shl32 x 11) (shr32 x 21) e)

abbrev Zeros : RandState → Type 0
Zeros s = (s.s0 ≡ 0) × (s.s1 ≡ 0) × (s.s2 ≡ 0) × (s.s3 ≡ 0)

Zeros-of_all_zero : (s : RandState) → all_zero s ≡ true → Zeros s
Zeros-of_all_zero s e = ground arith

all_zero_of_Zeros : (s : RandState) → Zeros s → all_zero s ≡ true
all_zero_of_Zeros s z = ground arith

-- Read backwards, each assignment of `Next` carries a zero state to a zero state.
next_state-Zeros : (s : RandState) → IsWords s → Zeros (next_state s) → Zeros s
unfolding next_state
next_state-Zeros s w z =
    let a3 : bit_xor s.s3 s.s1 ≡ 0 = rotl_eleven_zero _ (bit_xor-lt 32 s.s3 s.s1 w.w3 w.w1) z.3 in
    let e0 : s.s0 ≡ bit_xor s.s3 s.s1 = eq_of_bit_xor _ _ z.0 in
    let e1 : s.s1 ≡ bit_xor s.s2 s.s0 = eq_of_bit_xor _ _ z.1 in
    let e2 : bit_xor s.s2 s.s0 ≡ shl32 s.s1 9 = eq_of_bit_xor _ _ z.2 in
    let z1 : s.s1 ≡ 0 = omega arith in
    let z2 : s.s2 ≡ s.s0 = eq_of_bit_xor _ _ (omega arith) in
    let z3 : s.s3 ≡ s.s1 = eq_of_bit_xor _ _ a3 in (omega arith, z1, omega arith, omega arith)

next_state-IsWords : (s : RandState) → IsWords s → IsWords (next_state s)
unfolding next_state
next_state-IsWords s w =
    let a2 : bit_xor s.s2 s.s0 < 2 ^ 32 = bit_xor-lt 32 _ _ w.w2 w.w0 in
    let a3 : bit_xor s.s3 s.s1 < 2 ^ 32 = bit_xor-lt 32 _ _ w.w3 w.w1 in
    record {
      w0 = bit_xor-lt 32 _ _ w.w0 a3;
      w1 = bit_xor-lt 32 _ _ w.w1 a2;
      w2 = bit_xor-lt 32 _ _ a2 (omega arith);
      w3 = rotl-lt _ 11 a3;
    }

-- A state that is in range and not all zero is followed by such a state.
pub next_state-IsSeeded : (s : RandState) → IsSeeded s → IsSeeded (next_state s)
next_state-IsSeeded s v = record {
  words = next_state-IsWords s v.words;
  nonzero = elim (Bool-cases (all_zero (next_state s))) [
    | inl e ↦ cc (
      all_zero_of_Zeros s (next_state-Zeros s v.words (Zeros-of_all_zero (next_state s) e)),
      v.nonzero,
    )
    | inr e ↦ e
  ];
}

next_result-lt : (s : RandState) → next_result s < 2 ^ 32
unfolding next_result
next_result-lt s = omega arith

-- From a seeded generator, `Next` returns a 32-bit number and leaves a seeded generator, with what
-- it records and its flags as they were.
pub next-IsSeeded :
    (r : Rand)
    → IsSeeded r.s
    → ((next r).0 < 2 ^ 32) × IsSeeded (next r).1.s × ((next r).1 ≡ record r { s = (next r).1.s })
unfolding next
next-IsSeeded r v = (next_result-lt r.s, next_state-IsSeeded r.s v, refl)
