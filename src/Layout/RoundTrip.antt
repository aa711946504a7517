-- ===== src/Layout/RoundTrip.antt =====
-- That items are read from memory as they were written (ws/libresmack_fuzz/src/corpora/mmap.cpp and
-- ws/resmack/src/debug_state.cpp).
use resmack.Prelude.{ℕ, ◌+◌, ◌*◌, ◌^◌, ◌<◌, ◌≡◌, refl, ap, List, [], ◌∷◌, map, length, All, arith}
use resmack.Prelude.Outcome.{ok}
use resmack.Rand.{RandSnapshot}
use resmack.Corpus.{CorpusItemHeader}
use resmack.Layout.{
  put64, get64, get32, put_states, get_states, total_size, write_item, Stored, read_item,
  read_items, write_items,
}

-- The numbers of the item are 64-bit numbers, and so is its size.
pub record Fits (h : CorpusItemHeader) : Type 0 where
  pub parent1 : h.parent1_one_based_idx < 2 ^ 64
  pub parent2 : h.parent2_one_based_idx < 2 ^ 64
  pub key : h.feedback_key < 2 ^ 64
  pub num : h.feedback_num < 2 ^ 64
  pub iter : h.iter_discovered < 2 ^ 64
  pub mutations : h.mutations_since_offspring < 2 ^ 64
  pub crashes : h.num_crashes < 2 ^ 64
  pub ancestors : h.num_ancestors < 2 ^ 64
  pub direct : h.num_direct_descendants < 2 ^ 64
  pub descendants : h.num_descendants < 2 ^ 64
  pub bytes : 112 + 28 * length h.states < 2 ^ 64

pub get64-put64 : (x : ℕ) (rest : List ℕ) → x < 2 ^ 64 → get64 (put64 x rest) ≡ ok (x, rest)
unfolding get64 put64
get64-put64 x rest h = ap (λ n. ok (n, rest)) (omega arith)

get_states-put_states :
    (states : List RandSnapshot) (rest : List ℕ)
    → get_states (length states) (put_states states rest) ≡ ok (states, rest)
unfolding get_states put_states get32
get_states-put_states [] rest = refl
get_states-put_states (x ∷ xs) rest = rw (get_states-put_states xs rest) refl

-- The item with the size that is written.
abbrev pub stored_item : ℕ → ℕ → CorpusItemHeader → Stored
stored_item reserved1 reserved2 h = record {
  size = 112 + 28 * length h.states;
  header = h;
  reserved1 = reserved1;
  reserved2 = reserved2;
}

pub read_item-write_item :
    (r1 r2 : ℕ) (h : CorpusItemHeader) (rest : List ℕ)
    → r1 < 2 ^ 64
    → r2 < 2 ^ 64
    → Fits h
    → read_item (write_item r1 r2 h rest) ≡ ok (stored_item r1 r2 h, rest)
unfolding read_item write_item total_size
read_item-write_item r1 r2 h rest small1 small2 f =
    let count : length h.states < 2 ^ 64 = omega (arith, f.bytes) in
    rw
      (
        get64-put64 (112 + 28 * length h.states) _ f.bytes,
        get64-put64 h.feedback_key _ f.key,
        get64-put64 h.feedback_num _ f.num,
        get64-put64 h.iter_discovered _ f.iter,
        get64-put64 h.parent1_one_based_idx _ f.parent1,
        get64-put64 h.parent2_one_based_idx _ f.parent2,
        get64-put64 h.mutations_since_offspring _ f.mutations,
        get64-put64 h.num_crashes _ f.crashes,
        get64-put64 h.num_ancestors _ f.ancestors,
        get64-put64 h.num_descendants _ f.descendants,
        get64-put64 h.num_direct_descendants _ f.direct,
        get64-put64 r1 _ small1,
        get64-put64 r2 _ small2,
        get64-put64 (length h.states) _ count,
        get_states-put_states h.states rest,
      )
      refl

pub read_items-write_items :
    (items : List CorpusItemHeader) (rest : List ℕ)
    → All Fits items
    → read_items (length items) (write_items items rest) ≡ ok (map (stored_item 0 0) items, rest)
unfolding read_items write_items
read_items-write_items [] rest f = refl
read_items-write_items (h ∷ hs) rest f =
    rw
      (
        read_item-write_item 0 0 h (write_items hs rest) (omega arith) (omega arith) f.0,
        read_items-write_items hs rest f.1,
      )
      refl
