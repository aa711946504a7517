-- ===== src/Corpus/Stats.antt =====
-- The counters of the corpus: `UpdateStats`, `IncLastItemCrashes`, `IncUnwanted` and
-- `SyncCountersInner` of ws/libresmack_fuzz/src/corpora/mmap.cpp.
use resmack.Prelude.{
  ℕ, zero, suc, ◌+◌, ◌-◌, ◌%◌, ◌^◌, Bool, false, ◌&&◌, List, [], ◌∷◌, ltb, ◌==◌, if◌then◌else◌,
  get_elem?, set,
}
use resmack.Prelude.Outcome.{Outcome, Fault, ok, fail, or_fail, ◌>>=◌}
use resmack.Corpus.{MmapCorpus, SharedCorpus, CorpusEntry, CorpusItemHeader, inc}

-- The entries of the process and the items that it shares.
pub record Counted : Type 0 where
  pub snapshots : List CorpusEntry
  pub items : List CorpusItemHeader

-- The entry and the item of a parent, counted; `top` is `level == 0`, where the parent has a new
-- offspring.
abbrev pub bumped_entry : Bool → CorpusEntry → CorpusEntry
bumped_entry top parent = record parent {
  mutations_since_offspring = if top then 0 else parent.mutations_since_offspring;
  num_direct_descendants =
      if top then inc 64 parent.num_direct_descendants else parent.num_direct_descendants;
  num_descendants = inc 64 parent.num_descendants;
}

abbrev pub bumped_header : Bool → CorpusItemHeader → CorpusItemHeader
bumped_header top header = record header {
  num_direct_descendants =
      if top then inc 64 header.num_direct_descendants else header.num_direct_descendants;
  num_descendants = inc 64 header.num_descendants;
}

unfoldable pub bump_parent : ℕ → Bool → Counted → Outcome Counted
bump_parent i top st = or_fail (get_elem? st.snapshots i) Fault.out_of_range >>= λ parent.
    or_fail (get_elem? st.items i) Fault.out_of_range >>= λ header. ok (record {
      snapshots = set st.snapshots i (bumped_entry top parent);
      items = set st.items i (bumped_header top header);
    })

-- The loop over the parents of entry `idx`, `go` being the recursive call.
unfoldable pub visit_parents :
    (ℕ → Counted → Outcome (ℕ × Counted)) → ℕ → Bool → List ℕ → ℕ → Counted → Outcome (ℕ × Counted)
unfolding bump_parent
visit_parents go idx top [] max_level st = ok (max_level, st)
visit_parents go idx top (p ∷ ps) max_level st =
    let skipped = visit_parents go idx top ps max_level st in
    let visited = bump_parent (p - 1) top st >>= λ st1. go (p - 1) st1 >>= λ q.
    let (level, st2) = q in
    visit_parents go idx top ps (if ltb max_level level then level else max_level) st2 in
    if p == 0 then skipped else if p - 1 == idx then ok (max_level, st) else visited

-- `UpdateStats` of entry `idx`: the number of ancestors on the longest line.
unfoldable pub update_stats : ℕ → ℕ → Bool → Counted → Outcome (ℕ × Counted)
update_stats zero idx top st = fail Fault.no_fuel
update_stats (suc fuel) idx top st =
    or_fail (get_elem? st.snapshots idx) Fault.out_of_range >>= λ entry.
    let visited =
      visit_parents (λ i st1. update_stats fuel i false st1) idx top
        (entry.parent1_one_based_idx ∷ entry.parent2_one_based_idx ∷ []) 0 st
      >>= λ q. let (max_level, st1) = q in ok (max_level + 1, st1) in
    if entry.parent1_one_based_idx == 0 && entry.parent2_one_based_idx == 0
    then ok (0, st)
    else visited

unfoldable pub count_crash : ℕ → Counted → Outcome Counted
count_crash one_based_idx st =
    if one_based_idx == 0
    then fail Fault.out_of_range
    else (or_fail (get_elem? st.snapshots (one_based_idx - 1)) Fault.out_of_range >>= λ entry.
        or_fail (get_elem? st.items (one_based_idx - 1)) Fault.out_of_range >>= λ header.
        ok (record {
          snapshots =
              set st.snapshots (one_based_idx - 1)
                (record entry { num_crashes = inc 64 entry.num_crashes });
          items =
              set st.items (one_based_idx - 1)
                (record header { num_crashes = inc 64 header.num_crashes });
        }))

-- Without a first item the read `snapshots[0 - 1]` is out of range.
unfoldable pub inc_last_item_crashes :
    MmapCorpus → SharedCorpus → Outcome (MmapCorpus × SharedCorpus)
inc_last_item_crashes c m =
    count_crash c.last_item1_one_based_idx (record { snapshots = c.snapshots; items = m.items })
    >>= λ st1.
        (if c.last_item2_one_based_idx == 0
          then ok st1
          else count_crash c.last_item2_one_based_idx st1)
        >>= λ st2. ok (record c { snapshots = st2.snapshots }, record m { items = st2.items })

-- `GetItemHeader` walks from `first_item`, which is null before the first `SyncInner`.
unfoldable pub inc_unwanted : ℕ → MmapCorpus → SharedCorpus → Outcome (MmapCorpus × SharedCorpus)
inc_unwanted one_based_idx c m =
    if one_based_idx == 0
    then ok (c, m)
    else (or_fail c.first_item Fault.null_deref >>= λ start.
        or_fail (get_elem? m.items (one_based_idx - 1)) Fault.out_of_range >>= λ header.
        let m1 = record m {
          items = set m.items (one_based_idx - 1) (record header {
            mutations_since_offspring = inc 64 header.mutations_since_offspring;
          });
          updated_seq = inc 32 m.updated_seq;
        } in
        ok (record c { last_updated_seq = m1.updated_seq }, m1))

-- A sum that stops at the largest number of 64 bits.
abbrev pub sat_add : ℕ → ℕ → ℕ
sat_add x y = if ltb (2 ^ 64 - 1 - x) y then 2 ^ 64 - 1 else x + y

unfoldable pub sync_counter : ℕ → CorpusEntry → CorpusItemHeader → CorpusEntry × CorpusItemHeader
sync_counter decay entry curr =
    let total = sat_add curr.mutations_since_offspring entry.mutations_since_offspring_new in
    (
      record entry {
        mutations_since_offspring_new = 0;
        mutations_since_offspring = total;
        decay_pct = ((decay + 2 ^ 64 - total) % 2 ^ 64, decay);
      },
      record curr { mutations_since_offspring = total },
    )

-- The loop of `SyncCountersInner`, over the entries and the items from the first one on.
unfoldable pub counters_loop :
    ℕ
    → List CorpusEntry
    → List CorpusItemHeader
    → Outcome (List CorpusEntry × List CorpusItemHeader)
unfolding sync_counter
counters_loop decay [] items = ok ([], items)
counters_loop decay (entry ∷ entries) [] = fail Fault.out_of_range
counters_loop decay (entry ∷ entries) (curr ∷ items) = counters_loop decay entries items >>= λ q.
    let (entry', curr') = sync_counter decay entry curr in ok (entry' ∷ q.0, curr' ∷ q.1)

-- The items lie behind `first_item`, which is the start of the list once it is set.
unfoldable pub sync_counters_inner : MmapCorpus → SharedCorpus → Outcome (MmapCorpus × SharedCorpus)
sync_counters_inner c m = counters_loop c.corpus_decay c.snapshots m.items >>= λ q.
    ok (record c { snapshots = q.0 }, record m { items = q.1 })
