-- ===== src/Rand.antt =====
-- The random number generator: ws/libresmack/src/rand.cpp, include/resmack/rand.hpp, and
-- `RandBytes` and `OvSub` of include/resmack/utils.hpp. A word is a number below 2 ^ 32 and the
-- arithmetic wraps as uint32_t does. `NextInRangeGaussian` (floating point) is not modelled, and
-- of its two fields only the flag `use_last_gaussian` is kept, which `SetState` resets.
pub mod Invariant
pub mod Replay
pub mod Assign
mod Tests
use Prim.Native.Nat.{bit_or, bit_xor}
use resmack.Prelude.{
  ℕ, zero, suc, ◌+◌, ◌-◌, ◌*◌, ◌%◌, ◌^◌, Bool, true, false, ◌&&◌, List, [], ◌∷◌, ◌++◌, ◌==◌,
  if◌then◌else◌, length, get_elem?,
}
use resmack.Prelude.Words.{shl32, shr32}
use resmack.Prelude.Outcome.{Outcome, ok, fail, or_fail, guard, Fault, ◌>>=◌, ◌>>◌}

-- The four words `s_[0]` to `s_[3]`.
pub record RandState : Type 0 where
  pub s0 : ℕ
  pub s1 : ℕ
  pub s2 : ℕ
  pub s3 : ℕ

pub record RandSnapshot : Type 0 where
  pub ref_depth : ℕ
  pub max_depth : ℕ
  pub rule_idx : ℕ
  pub state : RandState

pub record Rand : Type 0 where
  pub s : RandState
  pub snapshots : List RandSnapshot
  pub should_record : Bool
  pub use_last_gaussian : Bool

unfoldable pub rotl : ℕ → ℕ → ℕ
rotl x k = bit_or (shl32 x k) (shr32 x (32 - k))

unfoldable pub next_result : RandState → ℕ
unfolding rotl
next_result s = rotl (s.s1 * 5 % 2 ^ 32) 7 * 9 % 2 ^ 32

-- The assignments of `Next` in their order: each right side reads the words as they are by then.
unfoldable pub next_state : RandState → RandState
unfolding rotl
next_state s =
    let t : ℕ = shl32 s.s1 9 in
    let a2 : ℕ = bit_xor s.s2 s.s0 in
    let a3 : ℕ = bit_xor s.s3 s.s1 in
    let a1 : ℕ = bit_xor s.s1 a2 in
    let a0 : ℕ = bit_xor s.s0 a3 in record { s0 = a0; s1 = a1; s2 = bit_xor a2 t; s3 = rotl a3 11 }

unfoldable pub next : Rand → ℕ × Rand
unfolding next_result next_state
next r = (next_result r.s, record r { s = next_state r.s })

unfoldable pub maybe : Rand → Bool × Rand
unfolding next
maybe r = let (n, r') = next r in (n % 2 == 0, r')

unfoldable pub snapshot_state : Rand → ℕ → ℕ → ℕ → Rand
snapshot_state r ref_depth max_depth rule_idx = record r {
  snapshots =
      r.snapshots
      ++ record { ref_depth = ref_depth; max_depth = max_depth; rule_idx = rule_idx; state = r.s }
        ∷ [];
}

unfoldable pub snapshot_clear : Rand → Rand
snapshot_clear r = record r { snapshots = [] }

abbrev pub set_should_record : Rand → Bool → Rand
set_should_record r val = record r { should_record = val }

abbrev pub all_zero : RandState → Bool
all_zero s = s.s0 == 0 && (s.s1 == 0 && (s.s2 == 0 && s.s3 == 0))

-- The flag says whether `raise(SIGINT)` was called.
unfoldable pub set_state : Rand → RandState → Bool × Rand
set_state r state = (all_zero state, record r { s = state; use_last_gaussian = false })

abbrev pub copy_state : Rand → RandState
copy_state r = r.s

-- `Init` with the four numbers that std::mt19937 gives for the seed. It leaves
-- `use_last_gaussian` as it was.
unfoldable pub init_state : Rand → RandState → Rand
init_state r words = record r { s = words; should_record = false }

-- `ReinitSeed`: like `Init` with new words, with the recording flag put back.
unfoldable pub reinit_seed : Rand → RandState → Rand
unfolding init_state
reinit_seed r words =
    let record_prev : Bool = r.should_record in
    record (init_state r words) { should_record = record_prev }

-- The copy constructor. The flag of the new object is never written: `fresh` is what it holds.
unfoldable pub copy_of : Bool → Rand → Rand
copy_of fresh other = record {
  s = other.s;
  snapshots = [] ++ other.snapshots;
  should_record = other.should_record;
  use_last_gaussian = fresh;
}

-- `operator=`; `same` is the test `this == &other`.
unfoldable pub assign : Bool → Rand → Rand → Rand
assign same this other = if same then this else record this {
  s = other.s;
  snapshots = this.snapshots ++ other.snapshots;
  should_record = other.should_record;
}

-- The characters that `RandBytes` appends. An empty charset divides by zero.
unfoldable pub rand_bytes : Rand → List ℕ → ℕ → Outcome (List ℕ × Rand)
unfolding next
rand_bytes r charset zero = ok ([], r)
rand_bytes r charset (suc n) = do
  let (v, r1) = next r
  guard (if length charset == 0 then false else true) Fault.div_by_zero
  c ← or_fail (get_elem? charset (v % length charset)) Fault.out_of_range
  (rest, r2) ← rand_bytes r1 charset n
  ok (c ∷ rest, r2)
