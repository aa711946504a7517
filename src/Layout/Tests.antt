-- ===== src/Layout/Tests.antt =====
-- Two items in memory, as ws/libresmack_fuzz/src/corpora/mmap.cpp lays them out.
use resmack.Prelude.{ℕ, ◌≡◌, refl, List, [], ◌∷◌, arith}
use resmack.Prelude.Outcome.{ok, ◌>>=◌}
use resmack.Rand.{RandSnapshot}
use resmack.Corpus.{CorpusItemHeader}
use resmack.Layout.{read_item, write_items, get_item_header}
use resmack.Layout.RoundTrip.{Fits, stored_item}
use resmack.Layout.Walk.{item_header_found}

abbrev snap : ℕ → RandSnapshot
snap rule = record {
  ref_depth = 0;
  max_depth = 10;
  rule_idx = rule;
  state = record { s0 = 7; s1 = 11; s2 = 13; s3 = 17 };
}

abbrev item : ℕ → List RandSnapshot → CorpusItemHeader
item key states = record {
  parent1_one_based_idx = 0;
  parent2_one_based_idx = 0;
  feedback_key = key;
  feedback_num = 5;
  iter_discovered = 1;
  mutations_since_offspring = 40;
  num_crashes = 0;
  num_ancestors = 0;
  num_direct_descendants = 0;
  num_descendants = 0;
  states = states;
}

abbrev items : List CorpusItemHeader
items = item 3 (snap 1 ∷ snap 2 ∷ []) ∷ item 4 (snap 1 ∷ []) ∷ []

first-Fits : Fits (item 3 (snap 1 ∷ snap 2 ∷ []))
first-Fits = omega arith

second-Fits : Fits (item 4 (snap 1 ∷ []))
second-Fits = omega arith

item_header_found_example :
    (get_item_header 1 (write_items items (0 ∷ [])) >>= read_item)
    ≡ ok (stored_item 0 0 (item 4 (snap 1 ∷ [])), 0 ∷ [])
unfolding write_items
item_header_found_example =
    item_header_found 1 items (0 ∷ []) (item 4 (snap 1 ∷ [])) (first-Fits, (second-Fits, tt)) refl
