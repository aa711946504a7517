-- ===== src/Corpus/Views.antt =====
-- What the counters of ws/libresmack_fuzz/src/corpora/mmap.cpp leave alone: the keys and the recordings of
-- the entries and of the items.
use resmack.Prelude.{
  ℕ, zero, suc, ◌-◌, ◌≡◌, refl, ap, ◌∙◌, sym, Bool, false, List, [], ◌∷◌, map, Option, none, some,
  get_elem?, set, ◌==◌, ◌&&◌, ltb, if◌then◌else◌,
}
use resmack.Prelude.Outcome.{
  Outcome, Fault, or_fail, Holds, Holds-bind, Holds-if, Holds-map, Holds-after,
}
use resmack.Rand.{RandSnapshot}
use resmack.Corpus.{CorpusEntry, CorpusItemHeader}
use resmack.Corpus.Stats.{
  Counted, bump_parent, bumped_entry, bumped_header, visit_parents, update_stats, count_crash,
  counters_loop, sync_counter,
}

-- A key and the recording that was found with it.
abbrev pub Record : Type 0
Record = ℕ × List RandSnapshot

abbrev pub entry_record : CorpusEntry → Record
entry_record e = (e.feedback_key, e.snapshot)

abbrev pub item_record : CorpusItemHeader → Record
item_record h = (h.feedback_key, h.states)

abbrev pub entry_records : List CorpusEntry → List Record
entry_records = map entry_record

abbrev pub item_records : List CorpusItemHeader → List Record
item_records = map item_record

some_inj {ℓ} : {A : Type ℓ} {a b : A} → some a ≡ some b → a ≡ b
some_inj h = cc

pub map-set_same {ℓ κ} :
    {A : Type ℓ} {B : Type κ} (f : A → B) (xs : List A) (i : ℕ) {x : A} (y : A)
    → get_elem? xs i ≡ some x
    → f y ≡ f x
    → map f (set xs i y) ≡ map f xs
map-set_same f [] i y h e = refl
map-set_same f (x ∷ xs) zero y h e = ap (λ b. b ∷ map f xs) (e ∙ ap f (sym (some_inj h)))
map-set_same f (x ∷ xs) (suc i) y h e = ap (λ l. f x ∷ l) (map-set_same f xs i y h e)

pub Holds-or_fail : {A : Type 0} (o : Option A) (e : Fault) → Holds (λ a. o ≡ some a) (or_fail o e)
Holds-or_fail none e = tt
Holds-or_fail (some a) e = refl

-- The same records on both sides.
pub record SameRecords (st st' : Counted) : Type 0 where
  pub entries : entry_records st'.snapshots ≡ entry_records st.snapshots
  pub items : item_records st'.items ≡ item_records st.items

same : {st : Counted} → SameRecords st st
same = record { entries = refl; items = refl }

pub then_same : {a b c : Counted} → SameRecords a b → SameRecords b c → SameRecords a c
then_same p q = record { entries = q.entries ∙ p.entries; items = q.items ∙ p.items }

bump_parent-SameRecords :
    (i : ℕ) (top : Bool) (st : Counted) → Holds (SameRecords st) (bump_parent i top st)
unfolding bump_parent
bump_parent-SameRecords i top st =
    Holds-bind (λ (e : CorpusEntry). get_elem? st.snapshots i ≡ some e) (SameRecords st)
      (or_fail (get_elem? st.snapshots i) Fault.out_of_range) _
      (Holds-or_fail (get_elem? st.snapshots i) Fault.out_of_range)
      (λ parent at.
        Holds-bind (λ (h : CorpusItemHeader). get_elem? st.items i ≡ some h) (SameRecords st)
          (or_fail (get_elem? st.items i) Fault.out_of_range) _
          (Holds-or_fail (get_elem? st.items i) Fault.out_of_range)
          (λ header found. record {
            entries = map-set_same entry_record st.snapshots i (bumped_entry top parent) at refl;
            items = map-set_same item_record st.items i (bumped_header top header) found refl;
          }))

-- The second component of what a recursion returns.
abbrev Kept : Counted → ℕ × Counted → Type 0
Kept st q = SameRecords st q.1

visit_parents-Kept :
    (go : ℕ → Counted → Outcome (ℕ × Counted))
    → ((i : ℕ) (st : Counted) → Holds (Kept st) (go i st))
    → (idx : ℕ) (top : Bool) (ps : List ℕ) (max_level : ℕ) (st : Counted)
    → Holds (Kept st) (visit_parents go idx top ps max_level st)
unfolding visit_parents
visit_parents-Kept go h idx top [] max_level st = same
visit_parents-Kept go h idx top (p ∷ ps) max_level st =
    Holds-if (Kept st) (p == 0) _ _ (visit_parents-Kept go h idx top ps max_level st) (
      Holds-if (Kept st) (p - 1 == idx) _ _ same (
        Holds-bind (SameRecords st) (Kept st) (bump_parent (p - 1) top st) _
          (bump_parent-SameRecords (p - 1) top st)
          (λ st1 k1. Holds-bind (Kept st1) (Kept st) (go (p - 1) st1) _ (h (p - 1) st1) (λ q k2.
            Holds-map (Kept q.1) (Kept st) _
              (visit_parents-Kept go h idx top ps (if ltb max_level q.0 then q.0 else max_level)
                q.1)
              (λ r k3. then_same k1 (then_same k2 k3))))))

pub update_stats-Kept :
    (fuel idx : ℕ) (top : Bool) (st : Counted) → Holds (Kept st) (update_stats fuel idx top st)
unfolding update_stats
update_stats-Kept zero idx top st = tt
update_stats-Kept (suc fuel) idx top st =
    Holds-after (Kept st) (or_fail (get_elem? st.snapshots idx) Fault.out_of_range) _ (λ entry.
      Holds-if (Kept st) (entry.parent1_one_based_idx == 0 && entry.parent2_one_based_idx == 0) _ _
        same
        (Holds-bind (Kept st) (Kept st) _ _
          (visit_parents-Kept (λ i st1. update_stats fuel i false st1)
            (λ i st1. update_stats-Kept fuel i false st1) idx top
            (entry.parent1_one_based_idx ∷ entry.parent2_one_based_idx ∷ []) 0 st)
          (λ q k. k)))

pub count_crash-SameRecords :
    (one_based_idx : ℕ) (st : Counted) → Holds (SameRecords st) (count_crash one_based_idx st)
unfolding count_crash
count_crash-SameRecords one_based_idx st =
    let i = one_based_idx - 1 in
    Holds-if (SameRecords st) (one_based_idx == 0) _ _ tt (
      Holds-bind (λ (e : CorpusEntry). get_elem? st.snapshots i ≡ some e) (SameRecords st)
        (or_fail (get_elem? st.snapshots i) Fault.out_of_range) _
        (Holds-or_fail (get_elem? st.snapshots i) Fault.out_of_range)
        (λ entry at.
          Holds-bind (λ (h : CorpusItemHeader). get_elem? st.items i ≡ some h) (SameRecords st)
            (or_fail (get_elem? st.items i) Fault.out_of_range) _
            (Holds-or_fail (get_elem? st.items i) Fault.out_of_range)
            (λ header found. record {
              entries = map-set_same entry_record st.snapshots i _ at refl;
              items = map-set_same item_record st.items i _ found refl;
            })))

-- The loop of `SyncCountersInner`.
abbrev pub Paired :
    List CorpusEntry → List CorpusItemHeader → List CorpusEntry × List CorpusItemHeader → Type 0
Paired entries items q =
    (entry_records q.0 ≡ entry_records entries) × (item_records q.1 ≡ item_records items)

pub counters_loop-Paired :
    (decay : ℕ) (entries : List CorpusEntry) (items : List CorpusItemHeader)
    → Holds (Paired entries items) (counters_loop decay entries items)
unfolding counters_loop sync_counter
counters_loop-Paired decay [] items = (refl, refl)
counters_loop-Paired decay (entry ∷ entries) [] = tt
counters_loop-Paired decay (entry ∷ entries) (curr ∷ items) =
    Holds-bind (Paired entries items) (Paired (entry ∷ entries) (curr ∷ items)) _ _
      (counters_loop-Paired decay entries items)
      (λ q k. (ap (λ l. entry_record entry ∷ l) k.0, ap (λ l. item_record curr ∷ l) k.1))
