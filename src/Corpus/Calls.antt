-- ===== src/Corpus/Calls.antt =====
-- The calls by which a process uses the shared corpus of ws/libresmack_fuzz/src/corpora/mmap.cpp, each under
-- the lock, and what they do to the table of records.
use resmack.Prelude.{
  ℕ, ◌+◌, ◌-◌, ◌^◌, ◌<◌, ◌≡◌, ◌≢◌, refl, ap, ◌∙◌, sym, subst, Bool, true, false, List, [], ◌∷◌,
  ◌++◌, map, some, length, get_elem?, ◌==◌, if◌then◌else◌, arith, ◌⊎◌, inl, inr, Bool-cases,
  length-append, ==_iff,
}
use resmack.Prelude.Outcome.{
  Fault, ok, or_fail, Holds, Holds-bind, Holds-if, Holds-map, Holds-after,
}
use resmack.Rand.{Rand, RandSnapshot}
use resmack.Corpus.{
  MmapCorpus, SharedCorpus, CorpusEntry, CorpusItemHeader, FeedbackStats, Sorters, sorteds_resort,
}
use resmack.Corpus.Strats.{set_strats, get_rand_idx_from_strats}
use resmack.Corpus.Stats.{Counted, inc_last_item_crashes, inc_unwanted, sync_counters_inner}
use resmack.Corpus.Sync.{sync, sync_inner, sync_counters}
use resmack.Corpus.Add.{
  contains, seen_feedback, add_if_fresh, add_rand_snapshot, add_rand_snapshot_inner,
  add_rand_snapshot_if_not_seen, get_item,
}
use resmack.Corpus.Views.{
  Record, entry_record, item_record, item_records, SameRecords, then_same, map-set_same,
  count_crash-SameRecords, Holds-or_fail,
}
use resmack.Corpus.Follow.{
  AllSeen, Reads, Follows, Synced, SameProcess, SameView, SameProcess-Reads, resorted,
  sync_inner-Synced, sync_counters_inner-SameView, length-map,
}
use resmack.Corpus.Grow.{Grown, add_rand_snapshot_inner-Grown, take_all}

abbrev pub keys_of : List Record → List ℕ
keys_of = map (λ (r : Record). r.0)

-- How a call may change the table of records: not at all; by one more record behind, whatever its key; or
-- by one whose key is new, if at all.
abbrev pub Change : Type 1
Change = List Record → List Record → Type 0

abbrev pub Same : Change
Same t u = u ≡ t

abbrev pub Added : Record → Change
Added r t u = u ≡ t ++ r ∷ []

abbrev pub AddedIfNew : Record → Change
AddedIfNew r t u = Same t u ⊎ ((contains r.0 (keys_of t) ≡ false) × Added r t u)

-- What holds after a call on the corpus `m`.
pub record After (change : Change) (m : SharedCorpus) (q : MmapCorpus × SharedCorpus) : Type 0 where
  pub follows : Follows q.0 (item_records q.1.items)
  pub table : change (item_records m.items) (item_records q.1.items)
  pub counted : q.1.num_entries ≡ length q.1.items

clash : true ≢ false
clash e = cc

-- The key of a record that is stored has been seen.
not_stored :
    (k : ℕ) (seen : List ℕ) (rs : List Record)
    → AllSeen seen rs
    → contains k seen ≡ false
    → contains k (keys_of rs) ≡ false
not_stored k seen [] h e = refl
not_stored k seen (r ∷ rs) h e = elim (Bool-cases (r.0 == k)) [
  | inl at ↦
      let it : r.0 ≡ k = (==_iff r.0 k).0 at in
      let yes_seen : contains k seen ≡ true = subst (λ n. contains n seen ≡ true) it h.0 in
      absurd (clash (sym yes_seen ∙ e))
  | inr other ↦ rw other (not_stored k seen rs h.1 e)
]

same_size :
    (items items' : List CorpusItemHeader)
    → item_records items' ≡ item_records items
    → length items' ≡ length items
same_size items items' e =
    sym (length-map item_record items') ∙ ap length e ∙ length-map item_record items

pub SameProcess-Follows :
    (c c' : MmapCorpus) (rs : List Record) → SameProcess c c' → Follows c rs → Follows c' rs
SameProcess-Follows c c' rs p (inl e) = inl (p.same_next ∙ e)
SameProcess-Follows c c' rs p (inr r) = inr (SameProcess-Reads c c' rs p r)

-- What `AddRandSnapshotInner` does under the lock, after `SyncInner` of the corpus `m0`.
inner-After :
    (sorters : Sorters) (iter : ℕ) (snapshot : List RandSnapshot) (stats : FeedbackStats) (d : Bool)
    (m0 : SharedCorpus) (q : MmapCorpus × SharedCorpus)
    → m0.num_entries ≡ length m0.items
    → m0.num_entries + 1 < 2 ^ 32
    → Synced m0 q
    → Holds
        (After (Added (stats.key, snapshot)) m0)
        (add_rand_snapshot_inner sorters iter snapshot stats d q.0 q.1)
inner-After sorters iter snapshot stats d m0 q full room s =
    let rs = item_records q.1.items in
    let reads : Reads q.0 rs = subst (Reads q.0) (sym s.same_records) s.reads in
    let full' : q.1.num_entries ≡ length q.1.items =
      s.same_entries ∙ full ∙ sym (same_size m0.items q.1.items s.same_records) in
    Holds-map (Grown stats snapshot q.1) (After (Added (stats.key, snapshot)) m0) _
      (add_rand_snapshot_inner-Grown sorters iter snapshot stats d q.0 q.1 reads full'
        (s.all_read ∙ sym s.same_entries) (omega (arith, room, s.same_entries)))
      (λ p g. record {
        follows = inr (subst (Reads p.0) (sym g.one_record) g.all_read);
        table = g.one_record ∙ ap (λ l. l ++ (stats.key, snapshot) ∷ []) s.same_records;
        counted = omega (
          arith,
          g.one_entry,
          full',
          length-map item_record p.1.items,
          length-map item_record q.1.items,
          ap length g.one_record,
          length-append rs ((stats.key, snapshot) ∷ []),
        );
      })

-- What `AddRandSnapshotIfNotSeen` does there.
add_if_fresh-After :
    (sorters : Sorters) (iter : ℕ) (snapshot : List RandSnapshot) (stats : FeedbackStats) (d : Bool)
    (m0 : SharedCorpus) (q : MmapCorpus × SharedCorpus)
    → m0.num_entries ≡ length m0.items
    → m0.num_entries + 1 < 2 ^ 32
    → Synced m0 q
    → Holds
        (λ (p : Bool × MmapCorpus × SharedCorpus).
          After (AddedIfNew (stats.key, snapshot)) m0 (p.1, p.2))
        (add_if_fresh sorters iter snapshot stats d q.0 q.1)
unfolding add_if_fresh seen_feedback
add_if_fresh-After sorters iter snapshot stats d m0 q full room s =
    let reads : Reads q.0 (item_records q.1.items) =
      subst (Reads q.0) (sym s.same_records) s.reads in
    let P : Bool × MmapCorpus × SharedCorpus → Type 0 =
      λ p. After (AddedIfNew (stats.key, snapshot)) m0 (p.1, p.2) in
    let all : AllSeen q.0.seen_keys (item_records m0.items) =
      subst (AllSeen q.0.seen_keys)
        (take_all q.0.next_item_index (item_records m0.items)
          (s.all_read ∙ full ∙ sym (length-map item_record m0.items)))
        s.reads.before.seen in
    elim (Bool-cases (contains stats.key q.0.seen_keys)) [
      | inl seen ↦ rw seen (record {
        follows = inr reads;
        table = inl s.same_records;
        counted = s.same_entries ∙ full ∙ sym (same_size m0.items q.1.items s.same_records);
      })
      | inr fresh ↦ rw fresh (
          Holds-bind (After (Added (stats.key, snapshot)) m0) P _ _
            (inner-After sorters iter snapshot stats d m0 q full room s)
            (λ p g. record {
              follows = g.follows;
              table =
                  inr
                    (not_stored stats.key q.0.seen_keys (item_records m0.items) all fresh, g.table);
              counted = g.counted;
            }))
    ]

module _ (c : MmapCorpus) (m : SharedCorpus) (f : Follows c (item_records m.items))
    (full : m.num_entries ≡ length m.items) where
  -- A call that changes counters only.
  SameView-After : (q : MmapCorpus × SharedCorpus) → SameView c m q → After Same m q
  SameView-After q v = record {
    follows =
        subst (Follows q.0) (sym v.same_records)
          (SameProcess-Follows c q.0 (item_records m.items) v.same_process f);
    table = v.same_records;
    counted = v.same_entries ∙ full ∙ sym (same_size m.items q.1.items v.same_records);
  }

  untouched : After Same m (c, m)
  untouched = record { follows = f; table = refl; counted = full }

  sync_inner-After : (sorters : Sorters) → Holds (After Same m) (sync_inner sorters c m)
  sync_inner-After sorters =
      Holds-map (Synced m) (After Same m) (sync_inner sorters c m)
        (sync_inner-Synced sorters c m f full)
        (λ q s. record {
          follows = inr (subst (Reads q.0) (sym s.same_records) s.reads);
          table = s.same_records;
          counted = s.same_entries ∙ full ∙ sym (same_size m.items q.1.items s.same_records);
        })

  pub sync-After : (sorters : Sorters) → Holds (After Same m) (sync sorters c m)
  unfolding sync
  sync-After sorters =
      Holds-if (After Same m) (m.updated_seq == c.last_updated_seq) (ok (c, m)) _ untouched
        (sync_inner-After sorters)

  pub sync_counters_inner-After : Holds (After Same m) (sync_counters_inner c m)
  sync_counters_inner-After =
      Holds-map (SameView c m) (After Same m) (sync_counters_inner c m)
        (sync_counters_inner-SameView c m) SameView-After

  pub sync_counters-After : (sorters : Sorters) → Holds (After Same m) (sync_counters sorters c m)
  unfolding sync_counters
  sync_counters-After sorters =
      Holds-if (After Same m) (length c.snapshots == m.num_entries) _ (sync sorters c m)
        (Holds-bind (SameView c m) (After Same m) (sync_counters_inner c m) _
          (sync_counters_inner-SameView c m)
          (λ q v. SameView-After (sorteds_resort sorters q.0, q.1) (resorted sorters c m q v)))
        (sync-After sorters)

  pub inc_unwanted-After : (idx : ℕ) → Holds (After Same m) (inc_unwanted idx c m)
  unfolding inc_unwanted
  inc_unwanted-After idx = Holds-if (After Same m) (idx == 0) (ok (c, m)) _ untouched (
      Holds-after (After Same m) (or_fail c.first_item Fault.null_deref) _ (λ start.
        Holds-bind (λ (h : CorpusItemHeader). get_elem? m.items (idx - 1) ≡ some h) (After Same m)
          (or_fail (get_elem? m.items (idx - 1)) Fault.out_of_range) _
          (Holds-or_fail (get_elem? m.items (idx - 1)) Fault.out_of_range)
          (λ header at. SameView-After _ (record {
            same_process = record {
              same_next = refl;
              same_index = refl;
              same_seen = refl;
              same_shots = refl;
            };
            same_records = map-set_same item_record m.items (idx - 1) _ at refl;
            same_entries = refl;
          }))))

  pub inc_last_item_crashes-After : Holds (After Same m) (inc_last_item_crashes c m)
  unfolding inc_last_item_crashes
  inc_last_item_crashes-After =
      let first : Counted = record { snapshots = c.snapshots; items = m.items } in
      let second = c.last_item2_one_based_idx in
      Holds-bind (SameRecords first) (After Same m) _ _
        (count_crash-SameRecords c.last_item1_one_based_idx first)
        (λ st1 k1.
          Holds-bind (SameRecords first) (After Same m) _ _
            (Holds-if (SameRecords first) (second == 0) (ok st1) _ k1 (
              Holds-map (SameRecords st1) (SameRecords first) _ (count_crash-SameRecords second st1)
                (λ st2 k2. then_same k1 k2)))
            (λ st2 k. SameView-After _ (record {
              same_process = record {
                same_next = refl;
                same_index = refl;
                same_seen = refl;
                same_shots = k.entries;
              };
              same_records = k.items;
              same_entries = refl;
            })))

  module _ (room : m.num_entries + 1 < 2 ^ 32) (sorters : Sorters) (iter : ℕ)
      (snapshot : List RandSnapshot) (stats : FeedbackStats) (d : Bool) where
    pub add_rand_snapshot-After :
        Holds
          (After (Added (stats.key, snapshot)) m)
          (add_rand_snapshot sorters iter snapshot stats d c m)
    unfolding add_rand_snapshot
    add_rand_snapshot-After =
        Holds-bind (Synced m) (After (Added (stats.key, snapshot)) m) (sync_inner sorters c m) _
          (sync_inner-Synced sorters c m f full)
          (λ q s. inner-After sorters iter snapshot stats d m q full room s)

    pub add_rand_snapshot_if_not_seen-After :
        Holds
          (λ (q : Bool × MmapCorpus × SharedCorpus).
            After (AddedIfNew (stats.key, snapshot)) m (q.1, q.2))
          (add_rand_snapshot_if_not_seen sorters iter snapshot stats d c m)
    unfolding add_rand_snapshot_if_not_seen
    add_rand_snapshot_if_not_seen-After =
        let P : Bool × MmapCorpus × SharedCorpus → Type 0 =
          λ q. After (AddedIfNew (stats.key, snapshot)) m (q.1, q.2) in
        Holds-if P (seen_feedback c stats.key) (ok (false, c, m)) _
          (record { follows = f; table = inl refl; counted = full })
          (Holds-bind (Synced m) P (sync_inner sorters c m) _ (sync_inner-Synced sorters c m f full)
            (λ q s. add_if_fresh-After sorters iter snapshot stats d m q full room s))

either-Follows :
    (b : Bool) (c c' : MmapCorpus) (rs : List Record)
    → Follows c rs
    → Follows c' rs
    → Follows (if b then c else c') rs
either-Follows true c c' rs f f' = f
either-Follows false c c' rs f f' = f'

set_strats-SameProcess : (strats : ℕ) (c : MmapCorpus) → SameProcess c (set_strats strats c)
unfolding set_strats
set_strats-SameProcess strats c = record {
  same_next = refl;
  same_index = refl;
  same_seen = refl;
  same_shots = refl;
}

pub get_item-After :
    (c : MmapCorpus) (m : SharedCorpus)
    → Follows c (item_records m.items)
    → m.num_entries ≡ length m.items
    → (sorters : Sorters) (r : Rand)
    → Holds
        (λ (q : List RandSnapshot × MmapCorpus × SharedCorpus × Rand). After Same m (q.1, q.2))
        (get_item sorters r c m)
unfolding get_item
get_item-After c m f full sorters r =
    let P : List RandSnapshot × MmapCorpus × SharedCorpus × Rand → Type 0 =
      λ q. After Same m (q.1, q.2) in
    let strats : MmapCorpus = set_strats (1 + 8 + 256) c in
    let f0 =
      either-Follows (length c.strat_handlers == 0) strats c (item_records m.items)
        (SameProcess-Follows c strats (item_records m.items)
          (set_strats-SameProcess (1 + 8 + 256) c) f)
        f in
    Holds-bind (After Same m) P _ _ (sync-After _ m f0 full sorters) (λ q a.
      Holds-after P (get_rand_idx_from_strats q.0 r) _ (λ p.
        Holds-bind (λ (e : CorpusEntry). get_elem? q.0.snapshots p.0 ≡ some e) P
          (or_fail (get_elem? q.0.snapshots p.0) Fault.out_of_range) _
          (Holds-or_fail (get_elem? q.0.snapshots p.0) Fault.out_of_range)
          (λ entry at. record {
            follows =
                SameProcess-Follows q.0 _ (item_records q.1.items)
                  (record {
                    same_next = refl;
                    same_index = refl;
                    same_seen = refl;
                    same_shots = map-set_same entry_record q.0.snapshots p.0 _ at refl;
                  })
                  a.follows;
            table = a.table;
            counted = a.counted;
          })))
