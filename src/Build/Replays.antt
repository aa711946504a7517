-- ===== src/Build/Replays.antt =====
-- Replaying a recorded generation: `MaybeDoRandReplay` and `MaybeUndoRandReplay` of
-- ws/libresmack/src/build_context.cpp, between which `Rules::Build` builds the rule.
use resmack.Prelude.{◌+◌, ◌≡◌, ◌⊎◌, inl, inr, none, some, Option-cases}
use resmack.Rand.{RandSnapshot, set_state}
use resmack.Build.Context.{Ctx, Saved, due, maybe_do_rand_replay, maybe_undo_rand_replay}

-- Where no snapshot is due, neither function changes the context. Where one is, the first takes the
-- generator's state and the maximal depth from the snapshot and moves on by one; the second, on
-- whatever context `ctx2` the build has come to, puts back the state that the generator had before,
-- but leaves the snapshot's maximal depth in place of the one that the context had.
pub replay_cases :
    (saved : Saved) (ctx ctx2 : Ctx)
    → let p = maybe_do_rand_replay saved ctx in
      let undone = maybe_undo_rand_replay p.0 ctx2 in
      ((due ctx ≡ none) × (p.1 ≡ ctx) × (undone ≡ ctx2))
      ⊎ ((snap : RandSnapshot) × (due ctx ≡ some snap)
          × (p.1.rand.s ≡ snap.state)
          × (p.1.max_depth ≡ snap.max_depth)
          × (p.1.replay_idx ≡ ctx.replay_idx + 1)
          × (p.1.output ≡ ctx.output)
          × (undone.rand.s ≡ ctx.rand.s)
          × (undone.max_depth ≡ snap.max_depth)
          × (undone.output ≡ ctx2.output))
unfolding maybe_do_rand_replay maybe_undo_rand_replay set_state
replay_cases saved ctx ctx2 = elim (Option-cases (due ctx)) [
  | inl none_due ↦
      inl (none_due, rw (none_due, maybe_do_rand_replay), rw (none_due, maybe_do_rand_replay))
  | inr (snap, e) ↦ inr (
    snap,
    e,
    rw (e, maybe_do_rand_replay),
    rw (e, maybe_do_rand_replay),
    rw (e, maybe_do_rand_replay),
    rw (e, maybe_do_rand_replay),
    rw (e, maybe_do_rand_replay),
    rw (e, maybe_do_rand_replay),
    rw (e, maybe_do_rand_replay),
  )
]
