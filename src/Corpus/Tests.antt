-- ===== src/Corpus/Tests.antt =====
-- A corpus of ws/libresmack_fuzz/src/corpora/mmap.cpp with two recordings.
use resmack.Prelude.{ℕ, ◌<◌, ◌≡◌, refl, [], ◌∷◌, true, false, none, some, length, arith, ◌+◌}
use resmack.Prelude.Outcome.{ok}
use resmack.Rand.{Rand}
use resmack.Corpus.{
  MmapCorpus, SharedCorpus, CorpusEntry, FeedbackStats, new_corpus, new_entry, sorteds_add,
  strat_rand, sorteds_resort, strat_most_recent, strat_least_direct_descendants,
}
use resmack.Corpus.Samples.{seeded, snap, unsorted, item, shared, fresh}
use resmack.Corpus.Strats.{set_strats, chosen_strats, get_rand_idx_from_strats}
use resmack.Corpus.Stats.{
  update_stats, visit_parents, bump_parent, sync_counter, counters_loop, sync_counters_inner,
}
use resmack.Corpus.Sync.{sync_loop, start_sync, sync_inner}
use resmack.Corpus.Add.{
  seen_feedback, header_of, add_entry, add_rand_snapshot_inner, add_if_fresh,
  add_rand_snapshot_if_not_seen,
}
use resmack.Corpus.Pick.{IsIndex, IsIndexed, get_rand_idx_in_range}
use resmack.Corpus.Once.{add_once}
use resmack.Corpus.Roundtrip.{recordings, stored, sync_from_start}

is_fresh : fresh.next_item ≡ none
unfolding new_corpus
is_fresh = refl

sync_from_start_example :
    (c' : MmapCorpus) × (m' : SharedCorpus) × (sync_inner unsorted fresh shared ≡ ok (c', m'))
    × (recordings c'.snapshots ≡ stored shared.items)
    × (stored m'.items ≡ stored shared.items)
    × (c'.next_item ≡ some (length shared.items))
sync_from_start_example = sync_from_start unsorted fresh shared is_fresh refl

abbrev entry : ℕ → CorpusEntry
entry index = record {
  parent1_one_based_idx = 0;
  parent2_one_based_idx = 0;
  index = index;
  mutations_since_offspring_new = 2;
  mutations_since_offspring = 40;
  feedback_key = index;
  feedback_num = 5;
  iter_discovered = 1;
  num_ancestors = 0;
  num_direct_descendants = 0;
  num_descendants = 0;
  num_crashes = 0;
  decay_pct = (1, 1);
  snapshot = snap index ∷ [];
}

abbrev synced : MmapCorpus
synced = record {
  strats = 9;
  strat_handlers = strat_rand ∷ strat_most_recent ∷ [];
  seen_keys = 4 ∷ 3 ∷ [];
  snapshots = entry 0 ∷ entry 1 ∷ [];
  most_direct_descendants_desc = 0 ∷ 1 ∷ [];
  most_descendants_desc = 1 ∷ 0 ∷ [];
  most_ancestors_desc = 0 ∷ 1 ∷ [];
  most_feedback = 1 ∷ 0 ∷ [];
  next_item_index = 2;
  first_item = some 0;
  next_item = some 2;
  last_updated_seq = 2;
  last_reorg_seq = 0;
  last_item1_one_based_idx = 1;
  last_item2_one_based_idx = 0;
  corpus_decay = 1000000;
  last_discovered_iteration = 1;
}

up : IsIndex 2 (0 ∷ 1 ∷ [])
up = record { size = refl; inside = (omega arith, (omega arith, tt)) }

down : IsIndex 2 (1 ∷ 0 ∷ [])
down = record { size = refl; inside = (omega arith, (omega arith, tt)) }

synced-IsIndexed : IsIndexed synced
synced-IsIndexed = record {
  direct_descendants = up;
  descendants = down;
  ancestors = up;
  feedback = down;
}

get_rand_idx_in_range_example :
    (i : ℕ) × (r' : Rand) × (get_rand_idx_from_strats synced seeded ≡ ok (i, r'))
    × (i < length synced.snapshots)
get_rand_idx_in_range_example =
    get_rand_idx_in_range synced seeded synced-IsIndexed (omega arith) (omega arith)

-- STRAT_RAND | STRAT_MOST_RECENT | STRAT_LEAST_DIRECT_DESCENDANTS.
set_strats_test :
    (set_strats (1 + 8 + 256) fresh).strat_handlers
    ≡ strat_rand ∷ strat_most_recent ∷ strat_least_direct_descendants ∷ []
unfolding set_strats chosen_strats new_corpus
set_strats_test = refl

abbrev stats : FeedbackStats
stats = record { new_coverage = true; key = 9; num = 6 }

-- A descendant of the first entry, which the shared memory counts too.
abbrev child : CorpusEntry
child = record (entry 2) {
  parent1_one_based_idx = 1;
  mutations_since_offspring_new = 0;
  mutations_since_offspring = 0;
  feedback_key = 9;
  feedback_num = 6;
  iter_discovered = 0;
  num_ancestors = 1;
  snapshot = snap 7 ∷ [];
}

abbrev with_child : MmapCorpus
with_child = record synced {
  seen_keys = 9 ∷ 4 ∷ 3 ∷ [];
  snapshots =
      record (entry 0) {
        mutations_since_offspring_new = 0;
        mutations_since_offspring = 0;
        num_direct_descendants = 1;
        num_descendants = 1;
        decay_pct = (999958, 1000000);
      }
      ∷ record (entry 1) {
        mutations_since_offspring_new = 0;
        mutations_since_offspring = 42;
        decay_pct = (999958, 1000000);
      }
      ∷ child
      ∷ [];
  most_direct_descendants_desc = 0 ∷ 1 ∷ 2 ∷ [];
  most_descendants_desc = 1 ∷ 0 ∷ 2 ∷ [];
  most_ancestors_desc = 0 ∷ 1 ∷ 2 ∷ [];
  most_feedback = 1 ∷ 0 ∷ 2 ∷ [];
  next_item_index = 3;
  next_item = some 3;
  last_updated_seq = 3;
  last_discovered_iteration = 9;
}

abbrev shared_with_child : SharedCorpus
shared_with_child = record shared {
  updated_seq = 3;
  num_entries = 3;
  items =
      record (item 3) {
        mutations_since_offspring = 42;
        num_direct_descendants = 1;
        num_descendants = 1;
      }
      ∷ record (item 4) { mutations_since_offspring = 42 }
      ∷ record (item 9) {
        parent1_one_based_idx = 1;
        feedback_num = 6;
        iter_discovered = 9;
        mutations_since_offspring = 0;
        num_ancestors = 1;
        states = snap 7 ∷ [];
      }
      ∷ [];
}

added :
    add_rand_snapshot_if_not_seen unsorted 9 (snap 7 ∷ []) stats true synced shared
    ≡ ok (true, with_child, shared_with_child)
unfolding add_rand_snapshot_if_not_seen add_if_fresh seen_feedback add_rand_snapshot_inner add_entry
    header_of sorteds_add sorteds_resort sync_inner start_sync sync_loop sync_counters_inner
    counters_loop sync_counter update_stats visit_parents bump_parent new_entry
added = refl

add_once_example :
    (seen_feedback with_child stats.key ≡ true)
    × (add_rand_snapshot_if_not_seen unsorted 10 [] stats false with_child shared_with_child
        ≡ ok (false, with_child, shared_with_child))
add_once_example =
    add_once unsorted 9 10 (snap 7 ∷ []) [] stats true false true synced shared with_child
      shared_with_child added
