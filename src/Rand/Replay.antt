-- ===== src/Rand/Replay.antt =====
-- Why a corpus of snapshots stands for inputs: a generator that is put into a recorded state makes
-- the same numbers again.
use resmack.Prelude.{
  ℕ, zero, suc, ◌≡◌, refl, ap, some, false, List, [], ◌∷◌, length, get_elem?,
  get_elem?-append_length,
}
use mathlib.Core.Path.{ap₂}
use resmack.Rand.{Rand, RandSnapshot, next, next_state, next_result, snapshot_state, set_state}
use resmack.Rand.Invariant.{IsSeeded, next_state-IsSeeded}

-- The next `n` numbers, and the generator after them.
abbrev pub draws : ℕ → Rand → List ℕ × Rand
draws zero r = ([], r)
draws (suc n) r = let (v, r1) = next r in let (vs, r2) = draws n r1 in (v ∷ vs, r2)

draws_same_state :
    (n : ℕ) (a b : Rand)
    → a.s ≡ b.s
    → ((draws n a).0 ≡ (draws n b).0) × ((draws n a).1.s ≡ (draws n b).1.s)
unfolding next
draws_same_state zero a b e = (refl, e)
draws_same_state (suc n) a b e =
    let ih = draws_same_state n (next a).1 (next b).1 (ap next_state e) in
    (ap₂ ◌∷◌ (ap next_result e) ih.0, ih.1)

draws-IsSeeded : (n : ℕ) (r : Rand) → IsSeeded r.s → IsSeeded (draws n r).1.s
unfolding next
draws-IsSeeded zero r v = v
draws-IsSeeded (suc n) r v = draws-IsSeeded n (next r).1 (next_state-IsSeeded r.s v)

-- After any number of draws from a seeded generator `r`, `SnapshotState` appends a snapshot with the
-- given depths and rule. Putting that snapshot's state into any generator `q` does not raise SIGINT,
-- and any number of draws from it gives the same numbers as the same draws from `r`.
pub replay_snapshot :
    (k n d m i : ℕ) (r q : Rand)
    → IsSeeded r.s
    → let r1 = (draws k r).1 in
      let r2 = snapshot_state r1 d m i in
      (snap : RandSnapshot) × (get_elem? r2.snapshots (length r1.snapshots) ≡ some snap)
      × (snap.ref_depth ≡ d)
      × (snap.max_depth ≡ m)
      × (snap.rule_idx ≡ i)
      × ((set_state q snap.state).0 ≡ false)
      × ((draws n (set_state q snap.state).1).0 ≡ (draws n r2).0)
unfolding snapshot_state set_state
replay_snapshot k n d m i r q v =
    let r1 = (draws k r).1 in
    (
      record { ref_depth = d; max_depth = m; rule_idx = i; state = r1.s },
      get_elem?-append_length r1.snapshots [] _,
      refl,
      refl,
      refl,
      (draws-IsSeeded k r v).nonzero,
      (draws_same_state n (set_state q r1.s).1 (snapshot_state r1 d m i) refl).0,
    )
