-- ===== src/Corpus/Follow.antt =====
-- What a process of ws/libresmack_fuzz/src/corpora/mmap.cpp has of the corpus that it shares with others:
-- the records of the first items, in their order.
use resmack.Prelude.{
  ℕ, zero, suc, ◌+◌, ◌-◌, ◌≤◌, ◌≡◌, refl, ap, ◌∙◌, sym, subst, true, List, [], ◌∷◌, ◌++◌, map, none,
  some, length, get_elem?, take, ◌==◌, arith, All, All-append, ◌⊎◌, inl, inr, Bool-cases, ==_refl,
  lt_of_get_elem?,
}
use resmack.Prelude.Outcome.{Fault, or_fail, Holds, Holds-bind, Holds-map}
use resmack.Corpus.{
  MmapCorpus, SharedCorpus, CorpusItemHeader, Sorters, sorteds_add, sorteds_clear, sorteds_resort,
}
use resmack.Corpus.Stats.{sync_counters_inner}
use resmack.Corpus.Sync.{entry_of, sync_loop, reset_corpus, start_sync, sync_inner}
use resmack.Corpus.Add.{contains}
use resmack.Corpus.Views.{
  Record, item_record, entry_records, item_records, Paired, counters_loop-Paired, Holds-or_fail,
}

-- The process has seen the key of each record.
abbrev pub AllSeen : List ℕ → List Record → Type 0
AllSeen seen = All (λ (r : Record). contains r.0 seen ≡ true)

-- The first `place` records are read.
pub record Before (place : ℕ) (c : MmapCorpus) (rs : List Record) : Type 0 where
  pub in_range : place ≤ length rs
  pub read : entry_records c.snapshots ≡ take place rs
  pub seen : AllSeen c.seen_keys (take place rs)

pub record Reads (c : MmapCorpus) (rs : List Record) : Type 0 where
  pub points : c.next_item ≡ some c.next_item_index
  pub before : Before c.next_item_index c rs

-- A process that has not read yet, or one that has.
abbrev pub Follows : MmapCorpus → List Record → Type 0
Follows c rs = (c.next_item ≡ none) ⊎ Reads c rs

pub get_elem?-map {ℓ κ} :
    {A : Type ℓ} {B : Type κ} (f : A → B) (xs : List A) (i : ℕ) {x : A}
    → get_elem? xs i ≡ some x
    → get_elem? (map f xs) i ≡ some (f x)
get_elem?-map f [] i h = cc
get_elem?-map f (x ∷ xs) zero h = cc
get_elem?-map f (x ∷ xs) (suc i) h = get_elem?-map f xs i h

pub length-map {ℓ κ} :
    {A : Type ℓ} {B : Type κ} (f : A → B) (xs : List A) → length (map f xs) ≡ length xs
length-map f [] = refl
length-map f (x ∷ xs) = ap suc (length-map f xs)

pub map-snoc {ℓ κ} :
    {A : Type ℓ} {B : Type κ} (f : A → B) (xs : List A) (x : A)
    → map f (xs ++ x ∷ []) ≡ map f xs ++ f x ∷ []
map-snoc f [] x = refl
map-snoc f (y ∷ xs) x = ap (λ l. f y ∷ l) (map-snoc f xs x)

pub take_one_more {ℓ} :
    {A : Type ℓ} (xs : List A) (i : ℕ) {x : A}
    → get_elem? xs i ≡ some x
    → take (suc i) xs ≡ take i xs ++ x ∷ []
take_one_more [] i h = cc
take_one_more (y ∷ xs) zero h = cc
take_one_more (y ∷ xs) (suc i) h = ap (λ l. y ∷ l) (take_one_more xs i h)

still_seen : (k : ℕ) (seen : List ℕ) (rs : List Record) → AllSeen seen rs → AllSeen (k ∷ seen) rs
still_seen k seen [] h = tt
still_seen k seen (r ∷ rs) h = (ground (arith, h.0), still_seen k seen rs h.1)

now_seen : (r : Record) (seen : List ℕ) → AllSeen (r.0 ∷ seen) (r ∷ [])
now_seen r seen = (rw (==_refl r.0) refl, tt)

-- One more record, with its key.
pub one_more-Before :
    (c c' : MmapCorpus) (rs : List Record) (place : ℕ) (r : Record)
    → Before place c rs
    → get_elem? rs place ≡ some r
    → c'.seen_keys ≡ r.0 ∷ c.seen_keys
    → entry_records c'.snapshots ≡ entry_records c.snapshots ++ r ∷ []
    → Before (suc place) c' rs
one_more-Before c c' rs place r b at keys shots =
    let more = sym (take_one_more rs place at) in
    record {
      in_range = omega (arith, lt_of_get_elem? rs place at);
      read = shots ∙ ap (λ l. l ++ r ∷ []) b.read ∙ more;
      seen = subst (AllSeen c'.seen_keys) more (
          subst (λ s. AllSeen s (take place rs ++ r ∷ [])) (sym keys)
            (All-append _ (take place rs) (r ∷ [])
              (still_seen r.0 c.seen_keys (take place rs) b.seen) (now_seen r c.seen_keys)));
    }

sync_loop-Reads :
    (count place : ℕ) (items : List CorpusItemHeader) (c : MmapCorpus)
    → Before place c (item_records items)
    → Holds
        (λ (c' : MmapCorpus). Reads c' (item_records items) × (c'.next_item_index ≡ place + count))
        (sync_loop count place place items c)
unfolding sync_loop entry_of sorteds_add
sync_loop-Reads zero place items c b = (
  record { points = refl; before = record { in_range = b.in_range; read = b.read; seen = b.seen } },
  omega arith,
)
sync_loop-Reads (suc count) place items c b =
    let rs = item_records items in
    let P : MmapCorpus → Type 0 = λ c'. Reads c' rs × (c'.next_item_index ≡ place + suc count) in
    Holds-bind (λ (h : CorpusItemHeader). get_elem? items place ≡ some h) P
      (or_fail (get_elem? items place) Fault.out_of_range) _
      (Holds-or_fail (get_elem? items place) Fault.out_of_range)
      (λ curr at.
        Holds-map (λ (c' : MmapCorpus). Reads c' rs × (c'.next_item_index ≡ suc place + count)) P _
          (sync_loop-Reads count (suc place) items _ (
            one_more-Before c _ rs place (item_record curr) b
              (get_elem?-map item_record items place at) refl
              (map-snoc _ c.snapshots (entry_of place curr))))
          (λ c' h. (h.0, h.1 ∙ omega arith)))

stamped-Reads :
    (c : MmapCorpus) (m : SharedCorpus) (rs : List Record)
    → Reads c rs
    → Reads (record c { last_updated_seq = m.updated_seq; last_reorg_seq = m.reorg_seq }) rs
stamped-Reads c m rs r = record {
  points = r.points;
  before = record { in_range = r.before.in_range; read = r.before.read; seen = r.before.seen };
}

reset-Reads :
    (c : MmapCorpus) (m : SharedCorpus) (rs : List Record)
    → Reads
        (record (reset_corpus c) { last_updated_seq = m.updated_seq; last_reorg_seq = m.reorg_seq })
        rs
unfolding reset_corpus sorteds_clear
reset-Reads c m rs = record {
  points = refl;
  before = record { in_range = omega arith; read = refl; seen = tt };
}

start_sync-Reads :
    (c : MmapCorpus) (m : SharedCorpus) (rs : List Record)
    → Follows c rs
    → Reads (start_sync m c) rs
unfolding start_sync reset_corpus sorteds_clear
start_sync-Reads c m rs (inl e) = rw (e, start_sync) (reset-Reads c m rs)
start_sync-Reads c m rs (inr r) = elim (Bool-cases (m.reorg_seq == c.last_reorg_seq)) [
  | inl old ↦ rw (r.points, start_sync, old) (stamped-Reads c m rs r)
  | inr new ↦ rw (r.points, start_sync, new) (reset-Reads c m rs)
]

-- `SyncInner` reads all that is there, and leaves the records as they are.
pub record Synced (m : SharedCorpus) (q : MmapCorpus × SharedCorpus) : Type 0 where
  pub same_records : item_records q.1.items ≡ item_records m.items
  pub same_entries : q.1.num_entries ≡ m.num_entries
  pub reads : Reads q.0 (item_records m.items)
  pub all_read : q.0.next_item_index ≡ m.num_entries

-- Of a process, all but counters and the order of its lists.
pub record SameProcess (c c' : MmapCorpus) : Type 0 where
  pub same_next : c'.next_item ≡ c.next_item
  pub same_index : c'.next_item_index ≡ c.next_item_index
  pub same_seen : c'.seen_keys ≡ c.seen_keys
  pub same_shots : entry_records c'.snapshots ≡ entry_records c.snapshots

pub record SameView (c : MmapCorpus) (m : SharedCorpus) (q : MmapCorpus × SharedCorpus)
    : Type 0 where
  pub same_process : SameProcess c q.0
  pub same_records : item_records q.1.items ≡ item_records m.items
  pub same_entries : q.1.num_entries ≡ m.num_entries

pub SameProcess-Reads :
    (c c' : MmapCorpus) (rs : List Record) → SameProcess c c' → Reads c rs → Reads c' rs
SameProcess-Reads c c' rs p r = record {
  points = p.same_next ∙ r.points ∙ ap some (sym p.same_index);
  before = record {
    in_range = subst (λ n. n ≤ length rs) (sym p.same_index) r.before.in_range;
    read = p.same_shots ∙ r.before.read ∙ ap (λ n. take n rs) (sym p.same_index);
    seen =
        subst (λ n. AllSeen c'.seen_keys (take n rs)) (sym p.same_index)
          (subst (λ s. AllSeen s (take c.next_item_index rs)) (sym p.same_seen) r.before.seen);
  };
}

pub sync_counters_inner-SameView :
    (c : MmapCorpus) (m : SharedCorpus) → Holds (SameView c m) (sync_counters_inner c m)
unfolding sync_counters_inner
sync_counters_inner-SameView c m =
    Holds-bind (Paired c.snapshots m.items) (SameView c m) _ _
      (counters_loop-Paired c.corpus_decay c.snapshots m.items)
      (λ q k. record {
        same_process = record {
          same_next = refl;
          same_index = refl;
          same_seen = refl;
          same_shots = k.0;
        };
        same_records = k.1;
        same_entries = refl;
      })

pub resorted :
    (sorters : Sorters) (c : MmapCorpus) (m : SharedCorpus) (q : MmapCorpus × SharedCorpus)
    → SameView c m q
    → SameView c m (sorteds_resort sorters q.0, q.1)
unfolding sorteds_resort
resorted sorters c m q v = record {
  same_process = record {
    same_next = v.same_process.same_next;
    same_index = v.same_process.same_index;
    same_seen = v.same_process.same_seen;
    same_shots = v.same_process.same_shots;
  };
  same_records = v.same_records;
  same_entries = v.same_entries;
}

some_inj {ℓ} : {A : Type ℓ} {a b : A} → some a ≡ some b → a ≡ b
some_inj h = cc

pub sync_inner-Synced :
    (sorters : Sorters) (c : MmapCorpus) (m : SharedCorpus)
    → Follows c (item_records m.items)
    → m.num_entries ≡ length m.items
    → Holds (Synced m) (sync_inner sorters c m)
unfolding sync_inner
sync_inner-Synced sorters c m f counted =
    let rs = item_records m.items in
    let c1 = start_sync m c in
    let r = start_sync-Reads c m rs f in
    let place = c1.next_item_index in
    let all : place + (m.num_entries - place) ≡ m.num_entries =
      omega (arith, r.before.in_range, counted, length-map item_record m.items) in
    let read : MmapCorpus → Type 0 =
      λ c'. Reads c' rs × (c'.next_item_index ≡ place + (m.num_entries - place)) in
    Holds-bind (λ (i : ℕ). c1.next_item ≡ some i) (Synced m) (or_fail c1.next_item Fault.null_deref)
      _ (Holds-or_fail c1.next_item Fault.null_deref)
      (λ i at.
        Holds-bind read (Synced m) _ _
          (subst (λ n. Holds read (sync_loop (m.num_entries - place) n place m.items c1))
            (some_inj (sym r.points ∙ at))
            (sync_loop-Reads (m.num_entries - place) place m.items c1 r.before))
          (λ c2 h.
            Holds-bind (SameView c2 m) (Synced m) _ _ (sync_counters_inner-SameView c2 m) (λ q v.
              record {
                same_records = v.same_records;
                same_entries = v.same_entries;
                reads =
                    SameProcess-Reads c2 (sorteds_resort sorters q.0) rs
                      (resorted sorters c2 m q v).same_process h.0;
                all_read = (resorted sorters c2 m q v).same_process.same_index ∙ h.1 ∙ all;
              })))
