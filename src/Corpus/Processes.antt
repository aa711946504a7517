-- ===== src/Corpus/Processes.antt =====
-- Any number of fuzzing processes on one corpus (ws/libresmack_fuzz/src/corpora/mmap.cpp): each step is one
-- call of one process, in any order, since a call holds the lock while it uses the shared memory.
use resmack.Prelude.{
  ℕ, zero, suc, ◌+◌, ◌^◌, ◌<◌, ◌≡◌, ◌≢◌, refl, sym, subst, Bool, true, false, ◌&&◌, List, [], ◌∷◌,
  ◌++◌, none, some, length, get_elem?, set, take, arith, All, All_get, ◌⊎◌, inl, inr, ne→==_false,
}
use resmack.Prelude.Outcome.{Outcome, ok, ◌>>=◌, Holds, Holds-bind}
use resmack.Rand.{Rand, RandSnapshot}
use resmack.Corpus.{MmapCorpus, SharedCorpus, FeedbackStats, Sorters}
use resmack.Corpus.Stats.{inc_last_item_crashes, inc_unwanted, sync_counters_inner}
use resmack.Corpus.Sync.{sync, sync_counters}
use resmack.Corpus.Add.{contains, add_rand_snapshot, add_rand_snapshot_if_not_seen, get_item}
use resmack.Corpus.Views.{Record, entry_records, item_records}
use resmack.Corpus.Follow.{Reads, Follows}
use resmack.Corpus.Grow.{longer-Before}
use resmack.Corpus.Calls.{
  Change, Same, Added, AddedIfNew, After, keys_of, sync-After, sync_counters-After,
  sync_counters_inner-After, get_item-After, inc_unwanted-After, inc_last_item_crashes-After,
  add_rand_snapshot-After, add_rand_snapshot_if_not_seen-After,
}

-- The public calls by which a process uses the shared memory, after `Init`.
pub data Call : Type 0 where
  add_always : ℕ → List RandSnapshot → FeedbackStats → Bool → Call
  add : ℕ → List RandSnapshot → FeedbackStats → Bool → Call
  read_new : Call
  read_counters : Call
  count_inner : Call
  pick : Rand → Call
  unwanted : ℕ → Call
  crashed : Call

-- The process and the corpus after the call, whose value is left out.
unfoldable pub run_call :
    Sorters → Call → MmapCorpus → SharedCorpus → Outcome (MmapCorpus × SharedCorpus)
run_call sorters (add_always iter snapshot stats d) c m =
    add_rand_snapshot sorters iter snapshot stats d c m
run_call sorters (add iter snapshot stats d) c m =
    add_rand_snapshot_if_not_seen sorters iter snapshot stats d c m >>= λ q. ok (q.1, q.2)
run_call sorters read_new c m = sync sorters c m
run_call sorters read_counters c m = sync_counters sorters c m
run_call sorters count_inner c m = sync_counters_inner c m
run_call sorters (pick r) c m = get_item sorters r c m >>= λ q. ok (q.1, q.2)
run_call sorters (unwanted idx) c m = inc_unwanted idx c m
run_call sorters crashed c m = inc_last_item_crashes c m

pub record Fuzzers : Type 0 where
  pub shared : SharedCorpus
  pub processes : List MmapCorpus

-- What a call may do to the table of the keys and recordings of the shared items.
abbrev pub Allowed : Call → Change
Allowed (add_always iter snapshot stats d) = Added (stats.key, snapshot)
Allowed (add iter snapshot stats d) = AddedIfNew (stats.key, snapshot)
Allowed read_new = Same
Allowed read_counters = Same
Allowed count_inner = Same
Allowed (pick r) = Same
Allowed (unwanted idx) = Same
Allowed crashed = Same

-- Whether the call looks at the key of what it adds.
abbrev pub looks : Call → Bool
looks (add_always iter snapshot stats d) = false
looks (add iter snapshot stats d) = true
looks read_new = true
looks read_counters = true
looks count_inner = true
looks (pick r) = true
looks (unwanted idx) = true
looks crashed = true

-- Calls are made while the count of the items, of 32 bits, is not about to wrap.
pub data Step (sorters : Sorters) (k : Call) (s t : Fuzzers) : Type 0 where
  call :
      (i : ℕ) (c c' : MmapCorpus) (m' : SharedCorpus)
      → get_elem? s.processes i ≡ some c
      → s.shared.num_entries + 1 < 2 ^ 32
      → run_call sorters k c s.shared ≡ ok (c', m')
      → t ≡ record { shared = m'; processes = set s.processes i c' }
      → Step sorters k s t

-- From a corpus that no process has read yet; whether all calls so far have looked at the keys.
pub data Reach (sorters : Sorters) (m : SharedCorpus) : Bool → Fuzzers → Type 0 where
  begin :
      (processes : List MmapCorpus)
      → All (λ (c : MmapCorpus). c.next_item ≡ none) processes
      → Reach sorters m true (record { shared = m; processes = processes })
  later :
      {looked : Bool} {s t : Fuzzers} (k : Call)
      → Reach sorters m looked s
      → Step sorters k s t
      → Reach sorters m (looked && looks k) t

-- No two records have one key.
abbrev pub Distinct : List Record → Type 0
Distinct [] = Unit
Distinct (r ∷ rs) = (contains r.0 (keys_of rs) ≡ false) × Distinct rs

pub record IsShared (looked : Bool) (s : Fuzzers) : Type 0 where
  pub counted : s.shared.num_entries ≡ length s.shared.items
  pub distinct : (looked ≡ false) ⊎ Distinct (item_records s.shared.items)
  pub following : All (λ c. Follows c (item_records s.shared.items)) s.processes

not_in_longer :
    (k : ℕ) (rs : List Record) (r : Record)
    → contains k (keys_of rs) ≡ false
    → r.0 ≢ k
    → contains k (keys_of (rs ++ r ∷ [])) ≡ false
not_in_longer k [] r h ne = rw (ne→==_false r.0 k ne) refl
not_in_longer k (x ∷ rs) r h ne = ground (arith, not_in_longer k rs r)

Distinct-append :
    (rs : List Record) (r : Record)
    → Distinct rs
    → contains r.0 (keys_of rs) ≡ false
    → Distinct (rs ++ r ∷ [])
Distinct-append [] r d h = (refl, tt)
Distinct-append (x ∷ rs) r d h =
    (not_in_longer x.0 rs r d.0 (ground arith), Distinct-append rs r d.1 (ground arith))

same-Distinct :
    (looked b : Bool) (t u : List Record)
    → Same t u
    → (looked ≡ false) ⊎ Distinct t
    → ((looked && b) ≡ false) ⊎ Distinct u
same-Distinct looked b t u e (inl unlooked) = inl (rw unlooked refl)
same-Distinct looked b t u e (inr d) = inr (subst Distinct (sym e) d)

and_false : (b : Bool) → (b && false) ≡ false
and_false true = refl
and_false false = refl

Allowed-Distinct :
    (looked : Bool) (k : Call) (t u : List Record)
    → Allowed k t u
    → (looked ≡ false) ⊎ Distinct t
    → ((looked && looks k) ≡ false) ⊎ Distinct u
Allowed-Distinct looked (add_always iter snapshot stats d) t u e h = inl (and_false looked)
Allowed-Distinct looked (add iter snapshot stats d) t u (inl e) h =
    same-Distinct looked true t u e h
Allowed-Distinct looked (add iter snapshot stats d) t u (inr e) (inl unlooked) =
    inl (rw unlooked refl)
Allowed-Distinct looked (add iter snapshot stats d) t u (inr e) (inr h) =
    inr (subst Distinct (sym e.1) (Distinct-append t (stats.key, snapshot) h e.0))
Allowed-Distinct looked read_new t u e h = same-Distinct looked true t u e h
Allowed-Distinct looked read_counters t u e h = same-Distinct looked true t u e h
Allowed-Distinct looked count_inner t u e h = same-Distinct looked true t u e h
Allowed-Distinct looked (pick r) t u e h = same-Distinct looked true t u e h
Allowed-Distinct looked (unwanted idx) t u e h = same-Distinct looked true t u e h
Allowed-Distinct looked crashed t u e h = same-Distinct looked true t u e h

same-Follows : (c : MmapCorpus) (t u : List Record) → Same t u → Follows c t → Follows c u
same-Follows c t u e f = subst (Follows c) (sym e) f

Added-Follows :
    (r : Record) (c : MmapCorpus) (t u : List Record) → Added r t u → Follows c t → Follows c u
Added-Follows r c t u e (inl new) = inl new
Added-Follows r c t u e (inr reads) = inr (
    subst (Reads c) (sym e) (record {
      points = reads.points;
      before = longer-Before c.next_item_index c t (r ∷ []) reads.before;
    }))

Allowed-Follows :
    (k : Call) (c : MmapCorpus) (t u : List Record) → Allowed k t u → Follows c t → Follows c u
Allowed-Follows (add_always iter snapshot stats d) c t u e f =
    Added-Follows (stats.key, snapshot) c t u e f
Allowed-Follows (add iter snapshot stats d) c t u (inl e) f = same-Follows c t u e f
Allowed-Follows (add iter snapshot stats d) c t u (inr e) f =
    Added-Follows (stats.key, snapshot) c t u e.1 f
Allowed-Follows read_new c t u e f = same-Follows c t u e f
Allowed-Follows read_counters c t u e f = same-Follows c t u e f
Allowed-Follows count_inner c t u e f = same-Follows c t u e f
Allowed-Follows (pick r) c t u e f = same-Follows c t u e f
Allowed-Follows (unwanted idx) c t u e f = same-Follows c t u e f
Allowed-Follows crashed c t u e f = same-Follows c t u e f

All-map {ℓ} :
    {A : Type ℓ} (P Q : A → Type 0) → ((a : A) → P a → Q a) → (xs : List A) → All P xs → All Q xs
All-map P Q h [] a = tt
All-map P Q h (x ∷ xs) a = (h x a.0, All-map P Q h xs a.1)

All-set {ℓ} :
    {A : Type ℓ} (P Q : A → Type 0)
    → ((a : A) → P a → Q a)
    → (xs : List A) (i : ℕ) (y : A) → All P xs
    → Q y
    → All Q (set xs i y)
All-set P Q h [] i y a q = tt
All-set P Q h (x ∷ xs) zero y a q = (q, All-map P Q h xs a.1)
All-set P Q h (x ∷ xs) (suc i) y a q = (h x a.0, All-set P Q h xs i y a.1 q)

run_call-After :
    (sorters : Sorters) (k : Call) (c : MmapCorpus) (m : SharedCorpus)
    → Follows c (item_records m.items)
    → m.num_entries ≡ length m.items
    → m.num_entries + 1 < 2 ^ 32
    → Holds (After (Allowed k) m) (run_call sorters k c m)
unfolding run_call
run_call-After sorters (add_always iter snapshot stats d) c m f full room =
    add_rand_snapshot-After c m f full room sorters iter snapshot stats d
run_call-After sorters (add iter snapshot stats d) c m f full room =
    let change : Change = AddedIfNew (stats.key, snapshot) in
    Holds-bind (λ (q : Bool × MmapCorpus × SharedCorpus). After change m (q.1, q.2))
      (After change m) _ _
      (add_rand_snapshot_if_not_seen-After c m f full room sorters iter snapshot stats d) (λ q a. a)
run_call-After sorters read_new c m f full room = sync-After c m f full sorters
run_call-After sorters read_counters c m f full room = sync_counters-After c m f full sorters
run_call-After sorters count_inner c m f full room = sync_counters_inner-After c m f full
run_call-After sorters (pick r) c m f full room =
    Holds-bind
      (λ (q : List RandSnapshot × MmapCorpus × SharedCorpus × Rand). After Same m (q.1, q.2))
      (After Same m) _ _ (get_item-After c m f full sorters r) (λ q a. a)
run_call-After sorters (unwanted idx) c m f full room = inc_unwanted-After c m f full idx
run_call-After sorters crashed c m f full room = inc_last_item_crashes-After c m f full

-- A call of a process among others.
one_call :
    (sorters : Sorters) (looked : Bool) (k : Call) (s t : Fuzzers)
    → IsShared looked s
    → Step sorters k s t
    → IsShared (looked && looks k) t
      × Allowed k (item_records s.shared.items) (item_records t.shared.items)
one_call sorters looked k s t h (call i c c' m' at room ran e) =
    let f = All_get (λ p. Follows p (item_records s.shared.items)) s.processes i h.following at in
    let a : After (Allowed k) s.shared (c', m') =
      subst (Holds (After (Allowed k) s.shared)) ran
        (run_call-After sorters k c s.shared f h.counted room) in
    let rs = item_records s.shared.items in
    let P : Fuzzers → Type 0 =
      λ u. IsShared (looked && looks k) u × Allowed k rs (item_records u.shared.items) in
    subst P (sym e) (
      record {
        counted = a.counted;
        distinct = Allowed-Distinct looked k rs (item_records m'.items) a.table h.distinct;
        following =
            All-set (λ p. Follows p rs) (λ p. Follows p (item_records m'.items))
              (λ p. Allowed-Follows k p rs (item_records m'.items) a.table) s.processes i c'
              h.following a.follows;
      },
      a.table,
    )

module _ (sorters : Sorters) (m : SharedCorpus) (full : m.num_entries ≡ length m.items)
    (distinct : Distinct (item_records m.items)) where
  Reach-IsShared : {looked : Bool} {t : Fuzzers} → Reach sorters m looked t → IsShared looked t
  Reach-IsShared (begin processes new) = record {
    counted = full;
    distinct = inr distinct;
    following = All-map _ _ (λ c none_read. inl none_read) processes new;
  }
  Reach-IsShared (later {looked} {s} {t} k r step) =
      (one_call sorters looked k s t (Reach-IsShared r) step).0

-- From a corpus with different keys, as many items as it counts and processes that have read nothing, a
-- call of any process that returns does the following to the keys and recordings of the shared items,
-- while their count is below 2 ^ 32 - 1. AddRandSnapshot puts its recording behind them, whatever its key.
-- AddRandSnapshotIfNotSeen does so if at all where none of them has the key, else it leaves them as they
-- are. Any other call leaves them as they are.
pub corpus_refines_table :
    (sorters : Sorters) (m : SharedCorpus)
    → m.num_entries ≡ length m.items
    → Distinct (item_records m.items)
    → {looked : Bool} {s t : Fuzzers} → Reach sorters m looked s
    → (k : Call) → Step sorters k s t
    → Allowed k (item_records s.shared.items) (item_records t.shared.items)
corpus_refines_table sorters m full distinct {looked} {s} {t} r k step =
    (one_call sorters looked k s t (Reach-IsShared sorters m full distinct r) step).1

read_so_far :
    (c : MmapCorpus) (rs : List Record)
    → Follows c rs
    → (c.next_item ≡ none) ⊎ (entry_records c.snapshots ≡ take c.next_item_index rs)
read_so_far c rs (inl new) = inl new
read_so_far c rs (inr r) = inr r.before.read

-- In a state that such calls lead to, the shared items are as many as are counted; no two of them have one
-- key, unless AddRandSnapshot has been called; and a process that has read some has the keys and recordings
-- of the first ones, in their order, as many as its next_item_index says.
pub processes_share :
    (sorters : Sorters) (m : SharedCorpus)
    → m.num_entries ≡ length m.items
    → Distinct (item_records m.items)
    → {looked : Bool} {s : Fuzzers} → Reach sorters m looked s
    → (i : ℕ) {c : MmapCorpus} → get_elem? s.processes i ≡ some c
    → (s.shared.num_entries ≡ length s.shared.items)
      × ((looked ≡ false) ⊎ Distinct (item_records s.shared.items))
      × ((c.next_item ≡ none)
          ⊎ (entry_records c.snapshots ≡ take c.next_item_index (item_records s.shared.items)))
processes_share sorters m full distinct {looked} {s} r i {c} at =
    let h = Reach-IsShared sorters m full distinct r in
    let rs = item_records s.shared.items in
    (
      h.counted,
      h.distinct,
      read_so_far c rs (All_get (λ p. Follows p rs) s.processes i h.following at),
    )
