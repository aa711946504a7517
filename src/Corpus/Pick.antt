-- ===== src/Corpus/Pick.antt =====
-- That the strategies of ws/libresmack_fuzz/src/corpora/mmap.cpp take an entry that there is.
use resmack.Prelude.{
  ℕ, ◌-◌, ◌%◌, ◌<◌, ◌≡◌, refl, List, leb, if◌then◌else◌, length, arith, All, All_get,
  get_elem?_below, Bool-cases, inl, inr,
}
use native.Mathlib.Nat.{mod-lt}
use resmack.Prelude.Outcome.{Outcome, ok, ◌>>=◌}
use resmack.Rand.{Rand, next}
use resmack.Corpus.{
  MmapCorpus, CorpusStrat, strat_rand, strat_most_feedback, strat_least_feedback, strat_most_recent,
  strat_least_recent, strat_most_ancestors, strat_least_ancestors, strat_most_direct_descendants,
  strat_least_direct_descendants, strat_most_descendants, strat_least_descendants,
}
use resmack.Corpus.Strats.{rem, at_front, at_back, handle_strat, get_rand_idx_from_strats}

-- A list of as many indices as there are entries, each that of an entry.
pub record IsIndex (n : ℕ) (l : List ℕ) : Type 0 where
  pub size : length l ≡ n
  pub inside : All (λ (i : ℕ). i < n) l

-- The four sorted lists.
pub record IsIndexed (c : MmapCorpus) : Type 0 where
  pub direct_descendants : IsIndex (length c.snapshots) c.most_direct_descendants_desc
  pub descendants : IsIndex (length c.snapshots) c.most_descendants_desc
  pub ancestors : IsIndex (length c.snapshots) c.most_ancestors_desc
  pub feedback : IsIndex (length c.snapshots) c.most_feedback

-- A result that is an index of an entry.
abbrev pub Picks : ℕ → Outcome (ℕ × Rand) → Type 0
Picks n o = (i : ℕ) × (r : Rand) × (o ≡ ok (i, r)) × (i < n)

front-Picks :
    (n i : ℕ) (l : List ℕ) (r : Rand)
    → IsIndex n l
    → i < n
    → Picks n (at_front l i >>= λ k. ok (k, r))
front-Picks n i l r v h =
    let (k, at) = get_elem?_below l i (omega (arith, v.size)) in
    (k, r, rw at refl, All_get (λ (j : ℕ). j < n) l i v.inside at)

back-Picks :
    (n i : ℕ) (l : List ℕ) (r : Rand)
    → IsIndex n l
    → i < n
    → Picks n (at_back l i >>= λ k. ok (k, r))
back-Picks n i l r v h = elim (Bool-cases (leb (length l) i)) [
  | inl past ↦ absurd (ground (arith, v.size))
  | inr inside ↦ rw inside (front-Picks n (length l - i - 1) l r v (omega (arith, v.size)))
]

handle_strat-Picks :
    (s : CorpusStrat) (c : MmapCorpus) (r : Rand) (i : ℕ)
    → IsIndexed c
    → i < length c.snapshots
    → Picks (length c.snapshots) (handle_strat s c r i)
unfolding handle_strat
handle_strat-Picks strat_rand c r i v h =
    ((next r).0 % length c.snapshots, (next r).1, ground arith, mod-lt _ (omega arith))
handle_strat-Picks strat_most_feedback c r i v h = front-Picks _ i c.most_feedback r v.feedback h
handle_strat-Picks strat_least_feedback c r i v h = back-Picks _ i c.most_feedback r v.feedback h
handle_strat-Picks strat_most_recent c r i v h = (_, r, refl, omega arith)
handle_strat-Picks strat_least_recent c r i v h = (i, r, refl, h)
handle_strat-Picks strat_most_ancestors c r i v h =
    front-Picks _ i c.most_ancestors_desc r v.ancestors h
handle_strat-Picks strat_least_ancestors c r i v h =
    back-Picks _ i c.most_ancestors_desc r v.ancestors h
handle_strat-Picks strat_most_direct_descendants c r i v h =
    front-Picks _ i c.most_direct_descendants_desc r v.direct_descendants h
handle_strat-Picks strat_least_direct_descendants c r i v h =
    back-Picks _ i c.most_direct_descendants_desc r v.direct_descendants h
handle_strat-Picks strat_most_descendants c r i v h =
    front-Picks _ i c.most_descendants_desc r v.descendants h
handle_strat-Picks strat_least_descendants c r i v h =
    back-Picks _ i c.most_descendants_desc r v.descendants h

rem_below : (x n : ℕ) → 0 < n → rem x n ≡ ok (x % n)
rem_below x n h = ground arith

top_below : (x n : ℕ) → 0 < n → x % (if leb 10 n then 10 else n) < n
top_below x n h = elim (Bool-cases (leb 10 n)) [
  | inl many ↦ rw many (ground arith)
  | inr few ↦ rw few (mod-lt x h)
]

-- Where the four lists hold indices of entries, as many as there are entries, there is an entry and
-- there is a strategy, `GetRandIdxFromStrats` returns the index of an entry.
pub get_rand_idx_in_range :
    (c : MmapCorpus) (r : Rand)
    → IsIndexed c
    → 0 < length c.snapshots
    → 0 < length c.strat_handlers
    → (i : ℕ) × (r' : Rand) × (get_rand_idx_from_strats c r ≡ ok (i, r')) × (i < length c.snapshots)
unfolding get_rand_idx_from_strats
get_rand_idx_in_range c r v some_entry some_strat =
    let choice_val = (next r).0 in
    let rand_val = (next (next r).1).0 in
    let n = length c.snapshots in
    let m = length c.strat_handlers in
    let top_ten = if leb 10 n then 10 else n in
    let some_top : 0 < top_ten = ground arith in
    let (strat, at) =
      get_elem?_below c.strat_handlers (choice_val % m) (mod-lt choice_val some_strat) in
    rw (rem_below rand_val top_ten some_top) (
      rw (rem_below choice_val m some_strat) (
        rw at (
          handle_strat-Picks strat c (next (next r).1).1 (rand_val % top_ten) v
            (top_below rand_val n some_entry))))
