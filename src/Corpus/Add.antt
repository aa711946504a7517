-- ===== src/Corpus/Add.antt =====
-- Adding a recording and taking one: `AddRandSnapshot`, `AddRandSnapshotIfNotSeen` and `GetItem` of
-- ws/libresmack_fuzz/src/corpora/mmap.cpp.
use resmack.Prelude.{
  ℕ, suc, ◌+◌, ◌-◌, ◌%◌, ◌^◌, Bool, true, false, List, [], ◌∷◌, ◌++◌, some, ◌==◌, ◌||◌,
  if◌then◌else◌, length, get_elem?, set, take,
}
use resmack.Prelude.Outcome.{Outcome, Fault, ok, or_fail, ◌>>=◌}
use resmack.Rand.{Rand, RandSnapshot}
use resmack.Corpus.{
  MmapCorpus, SharedCorpus, CorpusEntry, CorpusItemHeader, FeedbackStats, Sorters, inc, new_entry,
  sorteds_add, sorteds_resort,
}
use resmack.Corpus.Strats.{set_strats, get_rand_idx_from_strats}
use resmack.Corpus.Stats.{Counted, update_stats}
use resmack.Corpus.Sync.{sync, sync_inner}

abbrev pub contains : ℕ → List ℕ → Bool
contains k [] = false
contains k (x ∷ xs) = x == k || contains k xs

unfoldable pub seen_feedback : MmapCorpus → ℕ → Bool
seen_feedback c feedback_key = contains feedback_key c.seen_keys

-- The item that is written for the entry.
unfoldable pub header_of : CorpusEntry → ℕ → List RandSnapshot → CorpusItemHeader
header_of entry iter snapshot = record {
  parent1_one_based_idx = entry.parent1_one_based_idx;
  parent2_one_based_idx = entry.parent2_one_based_idx;
  feedback_key = entry.feedback_key;
  feedback_num = entry.feedback_num;
  iter_discovered = iter;
  mutations_since_offspring = entry.mutations_since_offspring;
  num_crashes = entry.num_crashes;
  num_ancestors = entry.num_ancestors;
  num_direct_descendants = entry.num_direct_descendants;
  num_descendants = entry.num_descendants;
  states = snapshot;
}

-- The new entry, with its parents and what `UpdateStats` counts. A line of ancestors is no longer
-- than there are entries.
unfoldable pub add_entry :
    FeedbackStats → Bool → MmapCorpus → SharedCorpus → Outcome (CorpusEntry × Counted)
unfolding new_entry
add_entry stats descendant_of_last c m =
    let idx = length c.snapshots in
    let entry = new_entry idx stats.key stats.num in
    let child = record entry {
      parent1_one_based_idx = c.last_item1_one_based_idx;
      parent2_one_based_idx = c.last_item2_one_based_idx;
    } in
    let counted =
      update_stats (suc (suc idx)) idx true
        (record { snapshots = c.snapshots ++ child ∷ []; items = m.items })
      >>= λ q.
          let (level, st) = q in
          or_fail (get_elem? st.snapshots idx) Fault.out_of_range >>= λ updated.
          ok (record updated { num_ancestors = level }, st) in
    if descendant_of_last
    then counted
    else ok (entry, record { snapshots = c.snapshots ++ entry ∷ []; items = m.items })

-- `AddRandSnapshotInner`; `iter` is `*curr_iter_count`. Nothing compares the end of the new item with
-- the size of the shared memory.
unfoldable pub add_rand_snapshot_inner :
    Sorters
    → ℕ
    → List RandSnapshot
    → FeedbackStats
    → Bool
    → MmapCorpus
    → SharedCorpus
    → Outcome (MmapCorpus × SharedCorpus)
unfolding add_entry header_of sorteds_add sorteds_resort
add_rand_snapshot_inner sorters iter snapshot stats descendant_of_last c m =
    let idx = length c.snapshots in
    add_entry stats descendant_of_last c m >>= λ q.
    let (entry, st) = q in
    or_fail (c.next_item) Fault.null_deref >>= λ place.
    let c1 =
      sorteds_resort sorters
        (sorteds_add idx (record c { snapshots = set st.snapshots idx entry })) in
    let m1 = record m {
      updated_seq = inc 32 m.updated_seq;
      num_entries = inc 32 m.num_entries;
      items = take place st.items ++ header_of entry iter snapshot ∷ [];
    } in
    ok (
      record c1 {
        snapshots = set st.snapshots idx (record entry { snapshot = snapshot });
        last_discovered_iteration = iter;
        last_updated_seq = m1.updated_seq;
        next_item_index = m1.num_entries;
        next_item = some (suc place);
        seen_keys = stats.key ∷ c.seen_keys;
      },
      m1,
    )

unfoldable pub add_rand_snapshot :
    Sorters
    → ℕ
    → List RandSnapshot
    → FeedbackStats
    → Bool
    → MmapCorpus
    → SharedCorpus
    → Outcome (MmapCorpus × SharedCorpus)
add_rand_snapshot sorters iter snapshot stats descendant_of_last c m =
    sync_inner sorters c m >>= λ q.
    add_rand_snapshot_inner sorters iter snapshot stats descendant_of_last q.0 q.1

-- What `AddRandSnapshotIfNotSeen` does after `SyncInner`. The flag is the return value.
unfoldable pub add_if_fresh :
    Sorters
    → ℕ
    → List RandSnapshot
    → FeedbackStats
    → Bool
    → MmapCorpus
    → SharedCorpus
    → Outcome (Bool × MmapCorpus × SharedCorpus)
unfolding seen_feedback
add_if_fresh sorters iter snapshot stats descendant_of_last c m =
    let added : Outcome (Bool × MmapCorpus × SharedCorpus) =
      add_rand_snapshot_inner sorters iter snapshot stats descendant_of_last c m >>= λ q.
      ok (true, q.0, q.1) in
    if seen_feedback c stats.key then ok (false, c, m) else added

unfoldable pub add_rand_snapshot_if_not_seen :
    Sorters
    → ℕ
    → List RandSnapshot
    → FeedbackStats
    → Bool
    → MmapCorpus
    → SharedCorpus
    → Outcome (Bool × MmapCorpus × SharedCorpus)
unfolding seen_feedback
add_rand_snapshot_if_not_seen sorters iter snapshot stats descendant_of_last c m =
    if seen_feedback c stats.key
    then ok (false, c, m)
    else (sync_inner sorters c m >>= λ q.
        add_if_fresh sorters iter snapshot stats descendant_of_last q.0 q.1)

-- The number of the entry that is taken, and its recording.
unfoldable pub get_item :
    Sorters
    → Rand
    → MmapCorpus
    → SharedCorpus
    → Outcome (List RandSnapshot × MmapCorpus × SharedCorpus × Rand)
get_item sorters r c m =
    let c0 = if length c.strat_handlers == 0 then set_strats (1 + 8 + 256) c else c in
    sync sorters c0 m >>= λ q.
    let (c1, m1) = q in
    get_rand_idx_from_strats c1 r >>= λ p.
    let (rand_idx, r') = p in
    or_fail (get_elem? c1.snapshots rand_idx) Fault.out_of_range >>= λ entry.
    let tries = inc 64 entry.mutations_since_offspring_new in
    let left = (c1.corpus_decay + 2 ^ 65 - entry.mutations_since_offspring - tries) % 2 ^ 64 in
    ok (
      entry.snapshot,
      record c1 {
        last_item1_one_based_idx = rand_idx + 1;
        last_item2_one_based_idx = 0;
        snapshots = set c1.snapshots rand_idx (record entry {
          mutations_since_offspring_new = tries;
          decay_pct = (left, c1.corpus_decay);
        });
      },
      m1,
      r',
    )
