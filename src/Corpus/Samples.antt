-- ===== src/Corpus/Samples.antt =====
-- A shared corpus of ws/libresmack_fuzz/src/corpora/mmap.cpp with two recordings, for the tests.
use resmack.Prelude.{ℕ, [], ◌∷◌, false}
use resmack.Rand.{Rand, RandState, RandSnapshot}
use resmack.Corpus.{MmapCorpus, SharedCorpus, CorpusItemHeader, Sorters, new_corpus}

abbrev pub words : RandState
words = record { s0 = 7; s1 = 11; s2 = 13; s3 = 17 }

abbrev pub seeded : Rand
seeded = record { s = words; snapshots = []; should_record = false; use_last_gaussian = false }

abbrev pub snap : ℕ → RandSnapshot
snap rule = record { ref_depth = 0; max_depth = 10; rule_idx = rule; state = words }

-- The sort that leaves its list as it is.
abbrev pub unsorted : Sorters
unsorted = record {
  by_direct_descendants = λ es l. l;
  by_descendants = λ es l. l;
  by_ancestors = λ es l. l;
  by_feedback = λ es l. l;
}

abbrev pub item : ℕ → CorpusItemHeader
item key = record {
  parent1_one_based_idx = 0;
  parent2_one_based_idx = 0;
  feedback_key = key;
  feedback_num = 5;
  iter_discovered = 1;
  mutations_since_offspring = 40;
  num_crashes = 0;
  num_ancestors = 0;
  num_direct_descendants = 0;
  num_descendants = 0;
  states = snap key ∷ [];
}

abbrev pub shared : SharedCorpus
shared = record { updated_seq = 2; reorg_seq = 0; num_entries = 2; items = item 3 ∷ item 4 ∷ [] }

abbrev pub fresh : MmapCorpus
fresh = new_corpus 0 0 0
