-- ===== src/Corpus/Sync.antt =====
-- Reading what other processes have added: `Sync`, `SyncInner` and `SyncCounters` of
-- ws/libresmack_fuzz/src/corpora/mmap.cpp.
use resmack.Prelude.{
  ℕ, zero, suc, ◌-◌, List, [], ◌∷◌, ◌++◌, none, some, ◌==◌, if◌then◌else◌, length, get_elem?,
}
use resmack.Prelude.Outcome.{Outcome, Fault, ok, or_fail, ◌>>=◌}
use resmack.Corpus.{
  MmapCorpus, SharedCorpus, CorpusEntry, CorpusItemHeader, Sorters, new_entry, sorteds_add,
  sorteds_clear, sorteds_resort,
}
use resmack.Corpus.Stats.{sync_counters_inner}

-- The entry that is made for the item `curr`.
unfoldable pub entry_of : ℕ → CorpusItemHeader → CorpusEntry
unfolding new_entry
entry_of snapshot_idx curr = record (new_entry snapshot_idx curr.feedback_key curr.feedback_num) {
  mutations_since_offspring = curr.mutations_since_offspring;
  parent1_one_based_idx = curr.parent1_one_based_idx;
  parent2_one_based_idx = curr.parent2_one_based_idx;
  iter_discovered = curr.iter_discovered;
  num_ancestors = curr.num_ancestors;
  num_direct_descendants = curr.num_direct_descendants;
  num_descendants = curr.num_descendants;
  num_crashes = curr.num_crashes;
  snapshot = curr.states;
}

-- The loop, with `count` items to read: `place` is that of `curr`, `snapshot_idx` its number.
unfoldable pub sync_loop : ℕ → ℕ → ℕ → List CorpusItemHeader → MmapCorpus → Outcome MmapCorpus
unfolding entry_of sorteds_add
sync_loop zero place snapshot_idx items c =
    ok (record c { next_item_index = snapshot_idx; next_item = some place })
sync_loop (suc count) place snapshot_idx items c =
    or_fail (get_elem? items place) Fault.out_of_range >>= λ curr.
    sync_loop count (suc place) (suc snapshot_idx) items (
      sorteds_add snapshot_idx (record c {
        seen_keys = curr.feedback_key ∷ c.seen_keys;
        snapshots = c.snapshots ++ entry_of snapshot_idx curr ∷ [];
      }))

-- Back to the start of the shared memory. The keys that were seen are kept.
unfoldable pub reset_corpus : MmapCorpus → MmapCorpus
unfolding sorteds_clear
reset_corpus c = record (sorteds_clear c) {
  snapshots = [];
  next_item_index = 0;
  next_item = some 0;
  first_item = some 0;
}

-- What `SyncInner` does before its loop.
unfoldable pub start_sync : SharedCorpus → MmapCorpus → MmapCorpus
unfolding reset_corpus
start_sync m c =
    let c1 : MmapCorpus = elim c.next_item [
      | none ↦ reset_corpus c
      | some place ↦ if m.reorg_seq == c.last_reorg_seq then c else reset_corpus c
    ] in
    record c1 { last_updated_seq = m.updated_seq; last_reorg_seq = m.reorg_seq }

unfoldable pub sync_inner :
    Sorters → MmapCorpus → SharedCorpus → Outcome (MmapCorpus × SharedCorpus)
unfolding start_sync sync_loop
sync_inner sorters c m =
    let c1 = start_sync m c in
    or_fail (c1.next_item) Fault.null_deref >>= λ place.
    sync_loop (m.num_entries - c1.next_item_index) place c1.next_item_index m.items c1 >>= λ c2.
    sync_counters_inner c2 m >>= λ q. let (c3, m3) = q in ok (sorteds_resort sorters c3, m3)

unfoldable pub sync : Sorters → MmapCorpus → SharedCorpus → Outcome (MmapCorpus × SharedCorpus)
sync sorters c m = if m.updated_seq == c.last_updated_seq then ok (c, m) else sync_inner sorters c m

unfoldable pub sync_counters :
    Sorters → MmapCorpus → SharedCorpus → Outcome (MmapCorpus × SharedCorpus)
sync_counters sorters c m =
    if length c.snapshots == m.num_entries
    then (sync_counters_inner c m >>= λ q. let (c1, m1) = q in ok (sorteds_resort sorters c1, m1))
    else sync sorters c m
