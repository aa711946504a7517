-- ===== src/Layout.antt =====
-- How the items of the corpus lie in the shared memory and in the state file: the structs of
-- ws/libresmack_fuzz/include/resmack/fuzz/serialized.hpp, the writing of an item in `AddRandSnapshotInner`
-- and the walks of `SyncInner` and `GetItemHeader` in src/corpora/mmap.cpp. Memory is a list of 32-bit words
-- from a pointer on, a 64-bit number being two of them, the low one first; every field has 4 bytes or 8.
pub mod RoundTrip
pub mod Walk
mod Tests
use resmack.Prelude.{ℕ, zero, suc, ◌+◌, ◌*◌, ◌/◌, ◌%◌, ◌^◌, List, [], ◌∷◌, length, drop}
use resmack.Prelude.Outcome.{Outcome, Fault, ok, fail, ◌>>=◌}
use resmack.Rand.{RandSnapshot, RandState}
use resmack.Corpus.{CorpusItemHeader}

-- A 64-bit number in front of `rest`.
unfoldable pub put64 : ℕ → List ℕ → List ℕ
put64 x rest = x % 2 ^ 32 ∷ x / 2 ^ 32 % 2 ^ 32 ∷ rest

unfoldable pub get64 : List ℕ → Outcome (ℕ × List ℕ)
get64 [] = fail Fault.out_of_range
get64 (low ∷ []) = fail Fault.out_of_range
get64 (low ∷ high ∷ rest) = ok (low + 2 ^ 32 * high, rest)

unfoldable pub get32 : List ℕ → Outcome (ℕ × List ℕ)
get32 [] = fail Fault.out_of_range
get32 (x ∷ rest) = ok (x, rest)

-- `GenState`s, in front of `rest`.
unfoldable pub put_states : List RandSnapshot → List ℕ → List ℕ
put_states [] rest = rest
put_states (x ∷ xs) rest =
    x.ref_depth
    ∷ x.max_depth
    ∷ x.rule_idx
    ∷ x.state.s0
    ∷ x.state.s1
    ∷ x.state.s2
    ∷ x.state.s3
    ∷ put_states xs rest

unfoldable pub get_states : ℕ → List ℕ → Outcome (List RandSnapshot × List ℕ)
get_states zero mem = ok ([], mem)
get_states (suc n) mem = do
  (ref_depth, m1) ← get32 mem
  (max_depth, m2) ← get32 m1
  (rule_idx, m3) ← get32 m2
  (s0, m4) ← get32 m3
  (s1, m5) ← get32 m4
  (s2, m6) ← get32 m5
  (s3, m7) ← get32 m6
  (xs, rest) ← get_states n m7
  ok (
    record {
      ref_depth = ref_depth;
      max_depth = max_depth;
      rule_idx = rule_idx;
      state = record { s0 = s0; s1 = s1; s2 = s2; s3 = s3 };
    }
        ∷ xs,
    rest,
  )

-- `total_size`, in bytes.
unfoldable pub total_size : List RandSnapshot → ℕ
total_size states = 112 + 28 * length states

-- The item as `AddRandSnapshotInner` leaves it in memory that had the two reserved numbers.
unfoldable pub write_item : ℕ → ℕ → CorpusItemHeader → List ℕ → List ℕ
unfolding total_size
write_item reserved1 reserved2 h rest = put64 (total_size h.states) (
    put64 h.feedback_key (
      put64 h.feedback_num (
        put64 h.iter_discovered (
          put64 h.parent1_one_based_idx (
            put64 h.parent2_one_based_idx (
              put64 h.mutations_since_offspring (
                put64 h.num_crashes (
                  put64 h.num_ancestors (
                    put64 h.num_descendants (
                      put64 h.num_direct_descendants (
                        put64 reserved1 (
                          put64 reserved2
                            (put64 (length h.states) (put_states h.states rest))))))))))))))

-- An item as it is read, and what lies behind its states: `SyncInner` and `DebugCorpusEntry` go on there.
pub record Stored : Type 0 where
  pub size : ℕ
  pub header : CorpusItemHeader
  pub reserved1 : ℕ
  pub reserved2 : ℕ

unfoldable pub read_item : List ℕ → Outcome (Stored × List ℕ)
read_item mem = do
  (size, m1) ← get64 mem
  (feedback_key, m2) ← get64 m1
  (feedback_num, m3) ← get64 m2
  (iter_discovered, m4) ← get64 m3
  (parent1, m5) ← get64 m4
  (parent2, m6) ← get64 m5
  (mutations, m7) ← get64 m6
  (num_crashes, m8) ← get64 m7
  (num_ancestors, m9) ← get64 m8
  (num_descendants, m10) ← get64 m9
  (num_direct_descendants, m11) ← get64 m10
  (reserved1, m12) ← get64 m11
  (reserved2, m13) ← get64 m12
  (num_states, m14) ← get64 m13
  (states, rest) ← get_states num_states m14
  ok (
    record {
      size = size;
      header = record {
        parent1_one_based_idx = parent1;
        parent2_one_based_idx = parent2;
        feedback_key = feedback_key;
        feedback_num = feedback_num;
        iter_discovered = iter_discovered;
        mutations_since_offspring = mutations;
        num_crashes = num_crashes;
        num_ancestors = num_ancestors;
        num_direct_descendants = num_direct_descendants;
        num_descendants = num_descendants;
        states = states;
      };
      reserved1 = reserved1;
      reserved2 = reserved2;
    },
    rest,
  )

-- The loop over `count` items.
unfoldable pub read_items : ℕ → List ℕ → Outcome (List Stored × List ℕ)
read_items zero mem = ok ([], mem)
read_items (suc count) mem = do
  (x, m1) ← read_item mem
  (xs, rest) ← read_items count m1
  ok (x ∷ xs, rest)

-- `GetItemHeader`, from the first item on, by the sizes in bytes that the items have.
unfoldable pub get_item_header : ℕ → List ℕ → Outcome (List ℕ)
get_item_header zero mem = ok mem
get_item_header (suc index) mem = do
  (size, rest) ← get64 mem
  get_item_header index (drop (size / 4) mem)

-- Items one after the other, in memory that held zeros, as a new state file does.
unfoldable pub write_items : List CorpusItemHeader → List ℕ → List ℕ
write_items [] rest = rest
write_items (h ∷ hs) rest = write_item 0 0 h (write_items hs rest)
