-- ===== src/Corpus/Roundtrip.antt =====
-- What a process that has read nothing takes from the shared memory
-- (ws/libresmack_fuzz/src/corpora/mmap.cpp).
use resmack.Prelude.{
  ℕ, suc, ◌+◌, ◌-◌, ◌≡◌, refl, ap, ◌∙◌, sym, List, [], ◌∷◌, ◌++◌, map, none, some, length,
  get_elem?, append_assoc, append-nil, arith, get_elem?-append_length, length-append,
}
use resmack.Prelude.Outcome.{Outcome, ok, ◌>>=◌}
use resmack.Rand.{RandSnapshot}
use resmack.Corpus.{
  MmapCorpus, SharedCorpus, CorpusEntry, CorpusItemHeader, Sorters, sorteds_add, sorteds_resort,
  sorteds_clear,
}
use resmack.Corpus.Stats.{counters_loop, sync_counter, sync_counters_inner}
use resmack.Corpus.Sync.{entry_of, sync_loop, reset_corpus, start_sync, sync_inner}

abbrev pub recordings : List CorpusEntry → List (List RandSnapshot)
recordings = map (λ (e : CorpusEntry). e.snapshot)

abbrev pub stored : List CorpusItemHeader → List (List RandSnapshot)
stored = map (λ (h : CorpusItemHeader). h.states)

-- The entries for the items from number `idx` on.
abbrev entries_from : ℕ → List CorpusItemHeader → List CorpusEntry
entries_from idx [] = []
entries_from idx (x ∷ xs) = entry_of idx x ∷ entries_from (suc idx) xs

recordings-entries_from :
    (idx : ℕ) (items : List CorpusItemHeader) → recordings (entries_from idx items) ≡ stored items
unfolding entry_of
recordings-entries_from idx [] = refl
recordings-entries_from idx (x ∷ xs) = ap (λ l. x.states ∷ l) (recordings-entries_from (suc idx) xs)

length-entries_from :
    (idx : ℕ) (items : List CorpusItemHeader) → length (entries_from idx items) ≡ length items
length-entries_from idx [] = refl
length-entries_from idx (x ∷ xs) = ap suc (length-entries_from (suc idx) xs)

-- The entry for `curr`, as one round of the loop appends it.
abbrev with_item : ℕ → CorpusItemHeader → MmapCorpus → MmapCorpus
with_item idx curr c = sorteds_add idx (record c {
  seen_keys = curr.feedback_key ∷ c.seen_keys;
  snapshots = c.snapshots ++ entry_of idx curr ∷ [];
})

-- The loop over `items`, which stand behind those that were read before.
sync_loop_reads :
    (items before all : List CorpusItemHeader) (idx place : ℕ) (c : MmapCorpus)
    → all ≡ before ++ items
    → length before ≡ place
    → (c' : MmapCorpus) × (sync_loop (length items) place idx all c ≡ ok c')
      × (c'.snapshots ≡ c.snapshots ++ entries_from idx items)
      × (c'.next_item ≡ some (place + length items))
unfolding sync_loop sorteds_add
sync_loop_reads [] before all idx place c e p = (
  record c { next_item_index = idx; next_item = some place },
  refl,
  sym (append-nil c.snapshots),
  ap some (omega arith),
)
sync_loop_reads (x ∷ items) before all idx place c e p =
    let slot : get_elem? all place ≡ some x =
      ap (λ l. get_elem? l place) e
      ∙ ap (get_elem? (before ++ x ∷ items)) (sym p)
      ∙ get_elem?-append_length before items x in
    let (c', run, snaps, at) =
      sync_loop_reads items (before ++ x ∷ []) all (suc idx) (suc place) (with_item idx x c)
        (e ∙ sym (append_assoc before (x ∷ []) items))
        (omega (arith, length-append before (x ∷ []))) in
    (
      c',
      rw slot run,
      snaps ∙ append_assoc c.snapshots (entry_of idx x ∷ []) (entries_from (suc idx) items),
      at ∙ ap some (omega arith),
    )

-- The counters change no recording.
counters_keep :
    (decay : ℕ) (entries : List CorpusEntry) (items : List CorpusItemHeader)
    → length entries ≡ length items
    → (entries' : List CorpusEntry) × (items' : List CorpusItemHeader) × (counters_loop decay
          entries items
        ≡ ok (entries', items'))
      × (recordings entries' ≡ recordings entries)
      × (stored items' ≡ stored items)
unfolding counters_loop sync_counter
counters_keep decay [] [] h = ([], [], refl, refl, refl)
counters_keep decay [] (x ∷ items) h = absurd (omega arith)
counters_keep decay (e ∷ entries) [] h = absurd (omega arith)
counters_keep decay (e ∷ entries) (x ∷ items) h =
    let (es, xs, run, keep, kept) = counters_keep decay entries items (omega arith) in
    let (e', x') = sync_counter decay e x in
    (e' ∷ es, x' ∷ xs, rw run refl, ap (λ l. e.snapshot ∷ l) keep, ap (λ l. x.states ∷ l) kept)

abbrev begun : SharedCorpus → MmapCorpus → MmapCorpus
begun m c = record c {
  snapshots = [];
  most_direct_descendants_desc = [];
  most_descendants_desc = [];
  most_ancestors_desc = [];
  most_feedback = [];
  next_item_index = 0;
  next_item = some 0;
  first_item = some 0;
  last_updated_seq = m.updated_seq;
  last_reorg_seq = m.reorg_seq;
}

abbrev finish : Sorters → SharedCorpus → MmapCorpus → Outcome (MmapCorpus × SharedCorpus)
finish sorters m c =
    sync_counters_inner c m >>= λ q. let (c1, m1) = q in ok (sorteds_resort sorters c1, m1)

sync_inner-start :
    (sorters : Sorters) (c : MmapCorpus) (m : SharedCorpus)
    → c.next_item ≡ none
    → sync_inner sorters c m
      ≡ (sync_loop (m.num_entries - 0) 0 0 m.items (begun m c) >>= finish sorters m)
unfolding sync_inner start_sync reset_corpus sorteds_clear
sync_inner-start sorters c m e = rw e refl

finish-ok :
    (sorters : Sorters) (c : MmapCorpus) (m : SharedCorpus) (es : List CorpusEntry)
    (xs : List CorpusItemHeader)
    → counters_loop c.corpus_decay c.snapshots m.items ≡ ok (es, xs)
    → finish sorters m c
      ≡ ok (sorteds_resort sorters (record c { snapshots = es }), record m { items = xs })
unfolding sync_counters_inner
finish-ok sorters c m es xs e = rw e refl

-- `SyncInner` of a process that has read nothing returns if the shared memory holds as many items as
-- it counts. The process then has their recordings, in their order, and points behind the last one;
-- the recordings in the shared memory stay as they are.
pub sync_from_start :
    (sorters : Sorters) (c : MmapCorpus) (m : SharedCorpus)
    → c.next_item ≡ none
    → m.num_entries ≡ length m.items
    → (c' : MmapCorpus) × (m' : SharedCorpus) × (sync_inner sorters c m ≡ ok (c', m'))
      × (recordings c'.snapshots ≡ stored m.items)
      × (stored m'.items ≡ stored m.items)
      × (c'.next_item ≡ some (length m.items))
unfolding sorteds_resort
sync_from_start sorters c m fresh counted =
    let (c2, run, snaps, at) = sync_loop_reads m.items [] m.items 0 0 (begun m c) refl refl in
    let (es, xs, count, keep, kept) =
      counters_keep c2.corpus_decay c2.snapshots m.items
        (ap length snaps ∙ length-entries_from 0 m.items) in
    let all : m.num_entries - 0 ≡ length m.items = omega (arith, counted) in
    (
      sorteds_resort sorters (record c2 { snapshots = es }),
      record m { items = xs },
      sync_inner-start sorters c m fresh
          ∙ ap (λ n. sync_loop n 0 0 m.items (begun m c) >>= finish sorters m) all
          ∙ ap (λ (o : Outcome MmapCorpus). o >>= finish sorters m) run
          ∙ finish-ok sorters c2 m es xs count,
      keep ∙ ap recordings snaps ∙ recordings-entries_from 0 m.items,
      kept,
      at ∙ ap some (omega arith),
    )
