-- ===== src/Corpus/Runs.antt =====
-- Two processes on a corpus of ws/libresmack_fuzz/src/corpora/mmap.cpp with two recordings: the first reads
-- it, then the second adds a recording.
use resmack.Prelude.{Bool, ℕ, ◌≡◌, ◌⊎◌, refl, [], ◌∷◌, true, false, none, some, length, take, arith}
use resmack.Corpus.{
  MmapCorpus, SharedCorpus, CorpusEntry, FeedbackStats, new_corpus, sorteds_add, sorteds_resort,
}
use resmack.Corpus.Samples.{snap, unsorted, item, shared, fresh}
use resmack.Corpus.Stats.{sync_counter, counters_loop, sync_counters_inner}
use resmack.Corpus.Sync.{sync, sync_loop, start_sync, sync_inner, entry_of}
use resmack.Corpus.Add.{
  seen_feedback, header_of, add_entry, add_rand_snapshot_inner, add_if_fresh,
  add_rand_snapshot_if_not_seen, add_rand_snapshot,
}
use resmack.Corpus.Views.{entry_records, item_records}
use resmack.Corpus.Calls.{AddedIfNew}
use resmack.Corpus.Processes.{
  Call, add_always, Fuzzers, Step, Reach, Distinct, call, begin, later, add, read_new, run_call,
  corpus_refines_table, processes_share,
}

abbrev stats : FeedbackStats
stats = record { new_coverage = true; key = 9; num = 6 }

-- The entry with this number and key, just read or, the third, just added.
abbrev entry : ℕ → ℕ → CorpusEntry
entry index key = record {
  parent1_one_based_idx = 0;
  parent2_one_based_idx = 0;
  index = index;
  mutations_since_offspring_new = 0;
  mutations_since_offspring = 40;
  feedback_key = key;
  feedback_num = 5;
  iter_discovered = 1;
  num_ancestors = 0;
  num_direct_descendants = 0;
  num_descendants = 0;
  num_crashes = 0;
  decay_pct = (999960, 1000000);
  snapshot = snap key ∷ [];
}

abbrev reader : MmapCorpus
reader = record {
  strats = 0;
  strat_handlers = [];
  seen_keys = 4 ∷ 3 ∷ [];
  snapshots = entry 0 3 ∷ entry 1 4 ∷ [];
  most_direct_descendants_desc = 0 ∷ 1 ∷ [];
  most_descendants_desc = 0 ∷ 1 ∷ [];
  most_ancestors_desc = 0 ∷ 1 ∷ [];
  most_feedback = 0 ∷ 1 ∷ [];
  next_item_index = 2;
  first_item = some 0;
  next_item = some 2;
  last_updated_seq = 2;
  last_reorg_seq = 0;
  last_item1_one_based_idx = 0;
  last_item2_one_based_idx = 0;
  corpus_decay = 1000000;
  last_discovered_iteration = 0;
}

abbrev writer : MmapCorpus
writer = record reader {
  seen_keys = 9 ∷ 4 ∷ 3 ∷ [];
  snapshots =
      entry 0 3
      ∷ entry 1 4
      ∷ record (entry 2 9) {
        mutations_since_offspring = 0;
        feedback_num = 6;
        iter_discovered = 0;
        decay_pct = (1, 1);
        snapshot = snap 7 ∷ [];
      }
      ∷ [];
  most_direct_descendants_desc = 0 ∷ 1 ∷ 2 ∷ [];
  most_descendants_desc = 0 ∷ 1 ∷ 2 ∷ [];
  most_ancestors_desc = 0 ∷ 1 ∷ 2 ∷ [];
  most_feedback = 0 ∷ 1 ∷ 2 ∷ [];
  next_item_index = 3;
  next_item = some 3;
  last_updated_seq = 3;
  last_discovered_iteration = 9;
}

abbrev three_items : SharedCorpus
three_items = record shared {
  updated_seq = 3;
  num_entries = 3;
  items =
      item 3
      ∷ item 4
      ∷ record (item 9) {
        feedback_num = 6;
        iter_discovered = 9;
        mutations_since_offspring = 0;
        states = snap 7 ∷ [];
      }
      ∷ [];
}

abbrev one_reads : Fuzzers
one_reads = record { shared = shared; processes = reader ∷ fresh ∷ [] }

abbrev other_adds : Fuzzers
other_adds = record { shared = three_items; processes = reader ∷ writer ∷ [] }

read : Reach unsorted shared true one_reads
unfolding run_call sync sync_inner start_sync sync_loop sync_counters_inner counters_loop
    sync_counter sorteds_resort entry_of new_corpus
read =
    later read_new (begin (fresh ∷ fresh ∷ []) (refl, (refl, tt)))
      (call 0 fresh reader shared refl (omega arith) refl refl)

abbrev adding : Call
adding = add 9 (snap 7 ∷ []) stats false

adds : Step unsorted adding one_reads other_adds
unfolding run_call add_rand_snapshot_if_not_seen add_if_fresh seen_feedback add_rand_snapshot_inner
    add_entry header_of sorteds_add sorteds_resort sync_inner start_sync sync_loop
    sync_counters_inner counters_loop sync_counter entry_of new_corpus
adds = call 1 fresh writer three_items refl (omega arith) refl refl

-- AddRandSnapshot does the same with this key, and would with one that is there.
adds_always : Step unsorted (add_always 9 (snap 7 ∷ []) stats false) one_reads other_adds
unfolding run_call add_rand_snapshot add_rand_snapshot_inner add_entry header_of sorteds_add
    sorteds_resort sync_inner start_sync sync_loop sync_counters_inner counters_loop sync_counter
    entry_of new_corpus
adds_always = call 1 fresh writer three_items refl (omega arith) refl refl

corpus_refines_table_example :
    AddedIfNew (stats.key, snap 7 ∷ []) (item_records shared.items) (item_records three_items.items)
corpus_refines_table_example =
    corpus_refines_table unsorted shared refl (refl, (refl, tt)) read adding adds

processes_share_example :
    (three_items.num_entries ≡ length three_items.items)
    × ((◌≡◌ {A = Bool} true false) ⊎ Distinct (item_records three_items.items))
    × ((reader.next_item ≡ none)
        ⊎ (entry_records reader.snapshots
            ≡ take reader.next_item_index (item_records three_items.items)))
processes_share_example =
    processes_share unsorted shared refl (refl, (refl, tt)) (later adding read adds) 0 refl
