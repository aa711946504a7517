-- ===== src/Corpus/Grow.antt =====
-- What adding a recording does to the records of the shared corpus and of the process that adds it
-- (ws/libresmack_fuzz/src/corpora/mmap.cpp).
use resmack.Prelude.{
  ℕ, zero, suc, ◌+◌, ◌^◌, ◌≤◌, ◌<◌, ◌≡◌, refl, ap, ◌∙◌, sym, subst, Bool, true, List, [], ◌∷◌, ◌++◌,
  map, some, length, get_elem?, set, take, arith, get_elem?-append_length, length-append,
}
use resmack.Prelude.Outcome.{Fault, or_fail, Holds, Holds-bind, Holds-if}
use resmack.Rand.{RandSnapshot}
use resmack.Corpus.{
  MmapCorpus, SharedCorpus, CorpusEntry, CorpusItemHeader, FeedbackStats, Sorters, new_entry,
  sorteds_add, sorteds_resort,
}
use resmack.Corpus.Stats.{Counted}
use resmack.Corpus.Add.{header_of, add_entry, add_rand_snapshot_inner}
use resmack.Corpus.Views.{
  Record, entry_record, item_record, entry_records, item_records, SameRecords, update_stats-Kept,
  Holds-or_fail,
}
use resmack.Corpus.Follow.{
  AllSeen, Before, Reads, one_more-Before, get_elem?-map, length-map, map-snoc,
}

module _ {ℓ} {A : Type ℓ} where
  pub take_within : (n : ℕ) (xs ys : List A) → n ≤ length xs → take n (xs ++ ys) ≡ take n xs
  take_within zero xs ys h = refl
  take_within (suc n) [] ys h = elim h [ ]
  take_within (suc n) (x ∷ xs) ys h = ap (λ l. x ∷ l) (take_within n xs ys (omega arith))

  pub take_all : (n : ℕ) (xs : List A) → n ≡ length xs → take n xs ≡ xs
  take_all zero [] h = refl
  take_all zero (x ∷ xs) h = absurd (omega arith)
  take_all (suc n) [] h = refl
  take_all (suc n) (x ∷ xs) h = ap (λ l. x ∷ l) (take_all n xs (omega arith))

  set_last : (n : ℕ) (xs : List A) (x y : A) → n ≡ length xs → set (xs ++ x ∷ []) n y ≡ xs ++ y ∷ []
  set_last zero [] x y h = refl
  set_last zero (z ∷ xs) x y h = absurd (omega arith)
  set_last (suc n) [] x y h = absurd (omega arith)
  set_last (suc n) (z ∷ xs) x y h = ap (λ l. z ∷ l) (set_last n xs x y (omega arith))

module _ {ℓ κ} {A : Type ℓ} {B : Type κ} (f : A → B) where
  map-take : (n : ℕ) (xs : List A) → map f (take n xs) ≡ take n (map f xs)
  map-take zero xs = refl
  map-take (suc n) [] = refl
  map-take (suc n) (x ∷ xs) = ap (λ l. f x ∷ l) (map-take n xs)

  map-set : (xs : List A) (i : ℕ) (y : A) → map f (set xs i y) ≡ set (map f xs) i (f y)
  map-set [] i y = refl
  map-set (x ∷ xs) zero y = refl
  map-set (x ∷ xs) (suc i) y = ap (λ l. f x ∷ l) (map-set xs i y)

-- More records behind those that were read.
pub longer-Before :
    (place : ℕ) (c : MmapCorpus) (rs ys : List Record)
    → Before place c rs
    → Before place c (rs ++ ys)
longer-Before place c rs ys b =
    let e = sym (take_within place rs ys b.in_range) in
    record {
      in_range = omega (arith, b.in_range, length-append rs ys);
      read = b.read ∙ e;
      seen = subst (AllSeen c.seen_keys) e b.seen;
    }

-- The new entry stands behind the others, with the key and without its recording.
record AddedEntry (stats : FeedbackStats) (c : MmapCorpus) (m : SharedCorpus)
    (q : CorpusEntry × Counted) : Type 0 where
  added : entry_records q.1.snapshots ≡ entry_records c.snapshots ++ (stats.key, []) ∷ []
  same_items : item_records q.1.items ≡ item_records m.items
  with_key : q.0.feedback_key ≡ stats.key

some_inj {ℓ} : {A : Type ℓ} {a b : A} → some a ≡ some b → a ≡ b
some_inj h = cc

key_behind :
    (key : ℕ) (shots es : List CorpusEntry) (e : CorpusEntry)
    → entry_records es ≡ entry_records shots ++ (key, []) ∷ []
    → get_elem? es (length shots) ≡ some e
    → e.feedback_key ≡ key
key_behind key shots es e behind at =
    let here = get_elem?-map entry_record es (length shots) at in
    let there : get_elem? (entry_records es) (length shots) ≡ some (key, []) =
      ap (λ l. get_elem? l (length shots)) behind
      ∙ ap (get_elem? (entry_records shots ++ (key, []) ∷ [])) (sym (length-map entry_record shots))
      ∙ get_elem?-append_length (entry_records shots) [] (key, []) in
    ap (λ (r : Record). r.0) (some_inj (sym here ∙ there))

add_entry-AddedEntry :
    (stats : FeedbackStats) (d : Bool) (c : MmapCorpus) (m : SharedCorpus)
    → Holds (AddedEntry stats c m) (add_entry stats d c m)
unfolding add_entry new_entry
add_entry-AddedEntry stats d c m =
    let idx = length c.snapshots in
    let first : Counted = record { snapshots = c.snapshots ++ _ ∷ []; items = m.items } in
    Holds-if (AddedEntry stats c m) d _ _
      (Holds-bind (λ (q : ℕ × Counted). SameRecords first q.1) (AddedEntry stats c m) _ _
        (update_stats-Kept (suc (suc idx)) idx true first)
        (λ q k.
          Holds-bind (λ (e : CorpusEntry). get_elem? q.1.snapshots idx ≡ some e)
            (AddedEntry stats c m) (or_fail (get_elem? q.1.snapshots idx) Fault.out_of_range) _
            (Holds-or_fail (get_elem? q.1.snapshots idx) Fault.out_of_range)
            (λ updated at.
              let behind = k.entries ∙ map-snoc entry_record c.snapshots _ in
              record {
                added = behind;
                same_items = k.items;
                with_key = key_behind stats.key c.snapshots q.1.snapshots updated behind at;
              })))
      (record { added = map-snoc entry_record c.snapshots _; same_items = refl; with_key = refl })

-- A process that had read all takes one more record.
grown-Reads :
    (c c' : MmapCorpus) (rs : List Record) (new : Record) (place : ℕ)
    → Before place c rs
    → place ≡ length rs
    → c'.next_item ≡ some (suc place)
    → c'.next_item_index ≡ suc place
    → c'.seen_keys ≡ new.0 ∷ c.seen_keys
    → entry_records c'.snapshots ≡ entry_records c.snapshots ++ new ∷ []
    → Reads c' (rs ++ new ∷ [])
grown-Reads c c' rs new place b all points index keys shots =
    let last : get_elem? (rs ++ new ∷ []) place ≡ some new =
      ap (get_elem? (rs ++ new ∷ [])) all ∙ get_elem?-append_length rs [] new in
    let more : Before (suc place) c' (rs ++ new ∷ []) =
      one_more-Before c c' (rs ++ new ∷ []) place new (longer-Before place c rs (new ∷ []) b) last
        keys shots in
    record {
      points = points ∙ ap some (sym index);
      before = subst (λ n. Before n c' (rs ++ new ∷ [])) (sym index) more;
    }

-- The items that are written.
grown_items :
    (stats : FeedbackStats) (snapshot : List RandSnapshot) (items before : List CorpusItemHeader)
    (h : CorpusItemHeader) (place : ℕ)
    → item_records items ≡ item_records before
    → place ≡ length (item_records before)
    → h.feedback_key ≡ stats.key
    → h.states ≡ snapshot
    → item_records (take place items ++ h ∷ []) ≡ item_records before ++ (stats.key, snapshot) ∷ []
grown_items stats snapshot items before h place same last key states =
    let kept : item_records (take place items) ≡ item_records before =
      map-take item_record place items
      ∙ ap (take place) same
      ∙ take_all place (item_records before) last in
    map-snoc item_record (take place items) h
    ∙ ap (λ l. l ++ item_record h ∷ []) kept
    ∙ ap (λ (r : Record). item_records before ++ r ∷ []) (λ i. (key i, states i))

-- A process that has read all, and the corpus, after a recording was added.
pub record Grown (stats : FeedbackStats) (snapshot : List RandSnapshot) (m : SharedCorpus)
    (q : MmapCorpus × SharedCorpus) : Type 0 where
  pub one_record : item_records q.1.items ≡ item_records m.items ++ (stats.key, snapshot) ∷ []
  pub one_entry : q.1.num_entries ≡ m.num_entries + 1
  pub all_read : Reads q.0 (item_records m.items ++ (stats.key, snapshot) ∷ [])

pub add_rand_snapshot_inner-Grown :
    (sorters : Sorters) (iter : ℕ) (snapshot : List RandSnapshot) (stats : FeedbackStats) (d : Bool)
    (c : MmapCorpus) (m : SharedCorpus)
    → Reads c (item_records m.items)
    → m.num_entries ≡ length m.items
    → c.next_item_index ≡ m.num_entries
    → m.num_entries + 1 < 2 ^ 32
    → Holds (Grown stats snapshot m) (add_rand_snapshot_inner sorters iter snapshot stats d c m)
unfolding add_rand_snapshot_inner sorteds_add sorteds_resort header_of
add_rand_snapshot_inner-Grown sorters iter snapshot stats d c m r counted last small =
    let rs = item_records m.items in
    let new : Record = (stats.key, snapshot) in
    let size : length rs ≡ m.num_entries = length-map item_record m.items ∙ sym counted in
    Holds-bind (AddedEntry stats c m) (Grown stats snapshot m) _ _
      (add_entry-AddedEntry stats d c m)
      (λ q a.
        Holds-bind (λ (i : ℕ). c.next_item ≡ some i) (Grown stats snapshot m)
          (or_fail c.next_item Fault.null_deref) _ (Holds-or_fail c.next_item Fault.null_deref)
          (λ place at.
            let e : place ≡ m.num_entries = some_inj (sym at ∙ r.points) ∙ last in
            record {
              one_record =
                  grown_items stats snapshot q.1.items m.items _ place a.same_items (e ∙ sym size)
                    a.with_key refl;
              one_entry = omega (arith, small);
              all_read =
                  grown-Reads c _ rs new place (subst (λ n. Before n c rs) (last ∙ sym e) r.before)
                    (e ∙ sym size) refl (omega (arith, e, small)) refl
                    (map-set entry_record q.1.snapshots (length c.snapshots) _
                      ∙ ap (λ l. set l (length c.snapshots) (q.0.feedback_key, snapshot)) a.added
                      ∙ set_last (length c.snapshots) (entry_records c.snapshots) (stats.key, []) _
                          (sym (length-map entry_record c.snapshots))
                      ∙ ap (λ k. entry_records c.snapshots ++ (k, snapshot) ∷ []) a.with_key);
            }))
