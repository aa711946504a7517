-- ===== src/Corpus.antt =====
-- The corpus of recordings that several fuzzing processes share: ws/libresmack_fuzz/src/corpora/mmap.cpp,
-- include/resmack/fuzz/corpora/mmap.hpp, corpus.hpp and serialized.hpp. The shared memory is a list of
-- items behind its counters; a pointer into it is a place in that list. `decay_pct` is kept as the two
-- numbers that the code divides as floats. std::sort, whose comparisons multiply floats, is a
-- parameter. Percentages for display are left out, and so is the lock: an operation is a step that no
-- other process interrupts.
pub mod Strats
pub mod Stats
pub mod Sync
pub mod Add
pub mod Pick
pub mod Once
pub mod Reset
pub mod Roundtrip
pub mod Views
pub mod Follow
pub mod Grow
pub mod Calls
pub mod Processes
mod Samples
mod Tests
mod Runs
use resmack.Prelude.{
  ℕ, zero, suc, ◌+◌, ◌-◌, ◌%◌, ◌^◌, Bool, true, false, List, [], ◌∷◌, ◌++◌, Option, none, some,
}
use resmack.Rand.{RandSnapshot}

pub record FeedbackStats : Type 0 where
  pub new_coverage : Bool
  pub key : ℕ
  pub num : ℕ

-- An item in the shared memory, with its `GenState`s. `size` and `num_states` count these.
pub record CorpusItemHeader : Type 0 where
  pub parent1_one_based_idx : ℕ
  pub parent2_one_based_idx : ℕ
  pub feedback_key : ℕ
  pub feedback_num : ℕ
  pub iter_discovered : ℕ
  pub mutations_since_offspring : ℕ
  pub num_crashes : ℕ
  pub num_ancestors : ℕ
  pub num_direct_descendants : ℕ
  pub num_descendants : ℕ
  pub states : List RandSnapshot

-- `CorpusMetadata` and the items that follow it.
pub record SharedCorpus : Type 0 where
  pub updated_seq : ℕ
  pub reorg_seq : ℕ
  pub num_entries : ℕ
  pub items : List CorpusItemHeader

pub record CorpusEntry : Type 0 where
  pub parent1_one_based_idx : ℕ
  pub parent2_one_based_idx : ℕ
  pub index : ℕ
  pub mutations_since_offspring_new : ℕ
  pub mutations_since_offspring : ℕ
  pub feedback_key : ℕ
  pub feedback_num : ℕ
  pub iter_discovered : ℕ
  pub num_ancestors : ℕ
  pub num_direct_descendants : ℕ
  pub num_descendants : ℕ
  pub num_crashes : ℕ
  pub decay_pct : ℕ × ℕ
  pub snapshot : List RandSnapshot

pub data CorpusStrat : Type 0 where
  strat_rand : CorpusStrat
  strat_most_feedback strat_least_feedback : CorpusStrat
  strat_most_recent strat_least_recent : CorpusStrat
  strat_most_ancestors strat_least_ancestors : CorpusStrat
  strat_most_direct_descendants strat_least_direct_descendants : CorpusStrat
  strat_most_descendants strat_least_descendants : CorpusStrat

-- What one process keeps.
pub record MmapCorpus : Type 0 where
  pub strats : ℕ
  pub strat_handlers : List CorpusStrat
  pub seen_keys : List ℕ
  pub snapshots : List CorpusEntry
  pub most_direct_descendants_desc : List ℕ
  pub most_descendants_desc : List ℕ
  pub most_ancestors_desc : List ℕ
  pub most_feedback : List ℕ
  pub next_item_index : ℕ
  pub first_item : Option ℕ
  pub next_item : Option ℕ
  pub last_updated_seq : ℕ
  pub last_reorg_seq : ℕ
  pub last_item1_one_based_idx : ℕ
  pub last_item2_one_based_idx : ℕ
  pub corpus_decay : ℕ
  pub last_discovered_iteration : ℕ

-- The four calls of std::sort, on indices, given the entries that the comparisons read.
pub record Sorters : Type 0 where
  pub by_direct_descendants : List CorpusEntry → List ℕ → List ℕ
  pub by_descendants : List CorpusEntry → List ℕ → List ℕ
  pub by_ancestors : List CorpusEntry → List ℕ → List ℕ
  pub by_feedback : List CorpusEntry → List ℕ → List ℕ

-- ++x on a number of w bits.
abbrev pub inc : ℕ → ℕ → ℕ
inc w x = (x + 1) % 2 ^ w

-- `CorpusEntry()`. The constructor does not write `feedback_key`: both callers do.
unfoldable pub new_entry : ℕ → ℕ → ℕ → CorpusEntry
new_entry index key num = record {
  parent1_one_based_idx = 0;
  parent2_one_based_idx = 0;
  index = index;
  mutations_since_offspring_new = 0;
  mutations_since_offspring = 0;
  feedback_key = key;
  feedback_num = num;
  iter_discovered = 0;
  num_ancestors = 0;
  num_direct_descendants = 0;
  num_descendants = 0;
  num_crashes = 0;
  decay_pct = (1, 1);
  snapshot = [];
}

-- `MmapCorpus(state_path)` with `Init` up to its `Sync`. The two sequence numbers and the iteration
-- are not initialised: they are arguments.
unfoldable pub new_corpus : ℕ → ℕ → ℕ → MmapCorpus
new_corpus updated reorg iter = record {
  strats = 0;
  strat_handlers = [];
  seen_keys = [];
  snapshots = [];
  most_direct_descendants_desc = [];
  most_descendants_desc = [];
  most_ancestors_desc = [];
  most_feedback = [];
  next_item_index = 0;
  first_item = none;
  next_item = none;
  last_updated_seq = updated;
  last_reorg_seq = reorg;
  last_item1_one_based_idx = 0;
  last_item2_one_based_idx = 0;
  corpus_decay = 1000000;
  last_discovered_iteration = iter;
}

unfoldable pub sorteds_add : ℕ → MmapCorpus → MmapCorpus
sorteds_add index c = record c {
  most_direct_descendants_desc = c.most_direct_descendants_desc ++ index ∷ [];
  most_descendants_desc = c.most_descendants_desc ++ index ∷ [];
  most_ancestors_desc = c.most_ancestors_desc ++ index ∷ [];
  most_feedback = c.most_feedback ++ index ∷ [];
}

unfoldable pub sorteds_clear : MmapCorpus → MmapCorpus
sorteds_clear c = record c {
  most_direct_descendants_desc = [];
  most_descendants_desc = [];
  most_ancestors_desc = [];
  most_feedback = [];
}

unfoldable pub sorteds_resort : Sorters → MmapCorpus → MmapCorpus
sorteds_resort sorters c = record c {
  most_direct_descendants_desc =
      sorters.by_direct_descendants c.snapshots c.most_direct_descendants_desc;
  most_descendants_desc = sorters.by_descendants c.snapshots c.most_descendants_desc;
  most_ancestors_desc = sorters.by_ancestors c.snapshots c.most_ancestors_desc;
  most_feedback = sorters.by_feedback c.snapshots c.most_feedback;
}
