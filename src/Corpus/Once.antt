-- ===== src/Corpus/Once.antt =====
-- That a recording with a key that the process has seen is not added again
-- (ws/libresmack_fuzz/src/corpora/mmap.cpp).
use resmack.Prelude.{
  ℕ, ◌≡◌, refl, ap, ◌∙◌, sym, Bool, true, false, List, ◌∷◌, ==_refl, Bool-cases, inl, inr,
}
use resmack.Prelude.Outcome.{Fault, ok, or_fail, ◌>>=◌, >>=-eq-ok, ok_inj}
use resmack.Rand.{RandSnapshot}
use resmack.Corpus.{MmapCorpus, SharedCorpus, FeedbackStats, Sorters}
use resmack.Corpus.Sync.{sync_inner}
use resmack.Corpus.Add.{
  contains, seen_feedback, add_entry, add_rand_snapshot_inner, add_if_fresh,
  add_rand_snapshot_if_not_seen,
}

seen_added :
    (sorters : Sorters) (iter : ℕ) (snapshot : List RandSnapshot) (stats : FeedbackStats) (d : Bool)
    (c : MmapCorpus) (m : SharedCorpus) (c' : MmapCorpus) (m' : SharedCorpus)
    → add_rand_snapshot_inner sorters iter snapshot stats d c m ≡ ok (c', m')
    → seen_feedback c' stats.key ≡ true
unfolding add_rand_snapshot_inner seen_feedback
seen_added sorters iter snapshot stats d c m c' m' h =
    let ((entry, st), e, h1) = >>=-eq-ok (add_entry stats d c m) _ h in
    let (place, e2, fin) = >>=-eq-ok (or_fail c.next_item Fault.null_deref) _ h1 in
    let keys : stats.key ∷ c.seen_keys ≡ c'.seen_keys =
      ap (λ (p : MmapCorpus × SharedCorpus). p.0.seen_keys) (ok_inj fin) in
    ap (contains stats.key) (sym keys) ∙ rw (==_refl stats.key) refl

seen_again :
    (sorters : Sorters) (iter : ℕ) (snapshot : List RandSnapshot) (stats : FeedbackStats) (d : Bool)
    (c : MmapCorpus) (m : SharedCorpus)
    → seen_feedback c stats.key ≡ true
    → add_rand_snapshot_if_not_seen sorters iter snapshot stats d c m ≡ ok (false, c, m)
unfolding add_rand_snapshot_if_not_seen
seen_again sorters iter snapshot stats d c m e = rw e refl

-- The part of the operation that runs under the lock, after `SyncInner`.
seen_after :
    (sorters : Sorters) (iter : ℕ) (snapshot : List RandSnapshot) (stats : FeedbackStats)
    (d b : Bool) (c : MmapCorpus) (m : SharedCorpus) (c' : MmapCorpus) (m' : SharedCorpus)
    → add_if_fresh sorters iter snapshot stats d c m ≡ ok (b, c', m')
    → seen_feedback c' stats.key ≡ true
unfolding add_if_fresh
seen_after sorters iter snapshot stats d b c m c' m' h =
    elim (Bool-cases (seen_feedback c stats.key)) [
      | inl yet ↦
          ap (λ (p : Bool × MmapCorpus × SharedCorpus). seen_feedback p.1 stats.key)
            (sym (ok_inj (rw (yet, add_if_fresh) at h)))
          ∙ yet
      | inr fresh ↦
          let (q, e, fin) =
            >>=-eq-ok (add_rand_snapshot_inner sorters iter snapshot stats d c m) _
              (rw (fresh, add_if_fresh) at h) in
          ap (λ (p : Bool × MmapCorpus × SharedCorpus). seen_feedback p.1 stats.key)
            (sym (ok_inj fin))
          ∙ seen_added sorters iter snapshot stats d c m q.0 q.1 e
    ]

not_seen_runs :
    (sorters : Sorters) (iter : ℕ) (snapshot : List RandSnapshot) (stats : FeedbackStats) (d : Bool)
    (c : MmapCorpus) (m : SharedCorpus)
    → seen_feedback c stats.key ≡ false
    → add_rand_snapshot_if_not_seen sorters iter snapshot stats d c m
      ≡ (sync_inner sorters c m >>= λ q. add_if_fresh sorters iter snapshot stats d q.0 q.1)
unfolding add_rand_snapshot_if_not_seen
not_seen_runs sorters iter snapshot stats d c m e = rw e refl

-- Whatever `AddRandSnapshotIfNotSeen` returns, the process has then seen the key, and to add any
-- recording with this key again returns false and changes neither the process nor the shared memory.
pub add_once :
    (sorters : Sorters) (iter iter' : ℕ) (snapshot snapshot' : List RandSnapshot)
    (stats : FeedbackStats) (d d' b : Bool) (c : MmapCorpus) (m : SharedCorpus) (c' : MmapCorpus)
    (m' : SharedCorpus)
    → add_rand_snapshot_if_not_seen sorters iter snapshot stats d c m ≡ ok (b, c', m')
    → (seen_feedback c' stats.key ≡ true)
      × (add_rand_snapshot_if_not_seen sorters iter' snapshot' stats d' c' m' ≡ ok (false, c', m'))
add_once sorters iter iter' snapshot snapshot' stats d d' b c m c' m' h =
    let seen : seen_feedback c' stats.key ≡ true = elim (Bool-cases (seen_feedback c stats.key)) [
      | inl yet ↦
          ap (λ (p : Bool × MmapCorpus × SharedCorpus). seen_feedback p.1 stats.key)
            (sym (ok_inj (sym (seen_again sorters iter snapshot stats d c m yet) ∙ h)))
          ∙ yet
      | inr fresh ↦
          let (q, e, fin) =
            >>=-eq-ok (sync_inner sorters c m) _
              (sym (not_seen_runs sorters iter snapshot stats d c m fresh) ∙ h) in
          seen_after sorters iter snapshot stats d b q.0 q.1 c' m' fin
    ] in
    (seen, seen_again sorters iter' snapshot' stats d' c' m' seen)
