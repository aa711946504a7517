-- ===== src/Corpus/Reset.antt =====
-- The reset of `mutations_since_offspring` in `UpdateStats`, and what the next `SyncCountersInner` makes
-- of it (ws/libresmack_fuzz/src/corpora/mmap.cpp).
use resmack.Prelude.{
  ℕ, ◌<◌, ◌≡◌, refl, true, some, length, get_elem?, set, get_elem?_below, get_elem?-set_self,
}
use resmack.Prelude.Outcome.{ok}
use resmack.Corpus.{CorpusEntry, CorpusItemHeader}
use resmack.Corpus.Stats.{Counted, bump_parent, bumped_entry, bumped_header, sat_add, sync_counter}

-- For a parent of a new entry, `UpdateStats` sets `mutations_since_offspring` of its entry to 0 and leaves
-- that of its item in the shared memory, so that the next `SyncCountersInner` gives the entry the old
-- count of the item again, with what the process has counted since added.
pub reset_is_undone :
    (i decay : ℕ) (st : Counted)
    → i < length st.snapshots
    → i < length st.items
    → (st' : Counted) × (entry : CorpusEntry) × (old : CorpusItemHeader)
      × (header : CorpusItemHeader) × (bump_parent i true st ≡ ok st')
      × (get_elem? st.items i ≡ some old)
      × (get_elem? st'.snapshots i ≡ some entry)
      × (get_elem? st'.items i ≡ some header)
      × (entry.mutations_since_offspring ≡ 0)
      × ((sync_counter decay entry header).0.mutations_since_offspring
          ≡ sat_add old.mutations_since_offspring entry.mutations_since_offspring_new)
unfolding bump_parent sync_counter
reset_is_undone i decay st h k =
    let (parent, at) = get_elem?_below st.snapshots i h in
    let (header, found) = get_elem?_below st.items i k in
    (
      record {
        snapshots = set st.snapshots i (bumped_entry true parent);
        items = set st.items i (bumped_header true header);
      },
      bumped_entry true parent,
      header,
      bumped_header true header,
      rw at (rw found refl),
      found,
      get_elem?-set_self st.snapshots i (bumped_entry true parent) h,
      get_elem?-set_self st.items i (bumped_header true header) k,
      refl,
      refl,
    )
