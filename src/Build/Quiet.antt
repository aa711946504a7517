-- ===== src/Build/Quiet.antt =====
-- The steps of a build from a grammar of bounded rank: the `Build` methods of ws/libresmack/src/items/
-- that build one other item, the replay of snapshots and the flush of src/build_context.cpp.
use resmack.Prelude.{
  ℕ, ◌≤◌, refl, Bool, true, false, List, [], ltb, ◌==◌, if◌then◌else◌, length, drop, inl, inr,
  Option-cases, Bool-cases,
}
use resmack.Prelude.Outcome.{Fault, ok, fail}
use resmack.Rand.{maybe}
use resmack.Item.{Item, raw}
use resmack.Manager.{RuleManager, clear_rule_values}
use resmack.Build.Context.{
  Ctx, Build, at, append, deref, do_shortest, flush_pre_post, build_post_items, Saved, due,
  maybe_do_rand_replay, maybe_undo_rand_replay,
}
use resmack.Build.Items.{
  build_opt, build_pre, build_capture, build_store, record_snapshot, add_rule, expire,
}
use resmack.Build.Safe.{Safe, Any, Safe-bind, Safe-if}
use resmack.Build.Calm.{Calm, Ranked, add_rule-Ranked, clear_rule_values-Ranked}
use resmack.Build.KeepsDepth.{pre_cases}

module _ (rank : ℕ → ℕ) (positive : (i : ℕ) → 1 ≤ rank i) where
  abbrev pub Quiet : Ctx → Type 0
  Quiet = Calm rank positive

  -- A build that keeps the context as it has to be, and has the fuel for it.
  abbrev pub Ends : Build → Type 0
  Ends go = (ctx : Ctx) → Quiet ctx → Safe Quiet (go ctx)

  pub sep-Quiet :
      (b : Bool) (sep : List ℕ) (ctx : Ctx) → Quiet ctx → Quiet (if b then append sep ctx else ctx)
  sep-Quiet true sep ctx h = h
  sep-Quiet false sep ctx h = h

  pub own-Quiet :
      (own : Bool) (ctx : Ctx)
      → Quiet ctx
      → Safe Quiet (ok (if own then record ctx { pre_output = expire ctx.pre_output } else ctx))
  own-Quiet true ctx h = h
  own-Quiet false ctx h = h

  pub clobber-Ranked :
      (clobber : Bool) (rule_idx : ℕ) (m : RuleManager)
      → Ranked rank positive m
      → Ranked rank positive (if clobber then clear_rule_values m rule_idx else m)
  clobber-Ranked true rule_idx m h = clear_rule_values-Ranked rank positive m rule_idx h
  clobber-Ranked false rule_idx m h = h

  pub deref-Safe : (ctx : Ctx) → Safe (Any {A = List ℕ}) (deref ctx.pre_output)
  deref-Safe ctx = elim (pre_cases ctx.pre_output) [
    | inl is_null ↦ rw (is_null, deref, Safe) tt
    | inr (inl gone) ↦ rw (gone, deref, Safe) tt
    | inr (inr (s, there)) ↦ rw (there, deref, Safe) tt
  ]

  pub snapshot-Quiet : (rule_idx : ℕ) (ctx : Ctx) → Quiet ctx → Quiet (record_snapshot rule_idx ctx)
  unfolding record_snapshot
  snapshot-Quiet rule_idx ctx h = elim (Bool-cases ctx.rand.should_record) [
    | inl on ↦ rw on h
    | inr off ↦ rw off h
  ]

  pub do-Quiet : (saved : Saved) (ctx : Ctx) → Quiet ctx → Quiet (maybe_do_rand_replay saved ctx).1
  unfolding maybe_do_rand_replay
  do-Quiet saved ctx h = elim (Option-cases (due ctx)) [
    | inl none_due ↦ rw (none_due, maybe_do_rand_replay) h
    | inr (snap, e) ↦ rw (e, maybe_do_rand_replay) h
  ]

  pub undo-Quiet :
      (saved : Saved) (ctx : Ctx) → Quiet ctx → Quiet (maybe_undo_rand_replay saved ctx)
  unfolding maybe_undo_rand_replay
  undo-Quiet saved ctx h = elim (Bool-cases saved.tmp_did_replay) [
    | inl did ↦ rw did h
    | inr not_done ↦ rw not_done h
  ]

  pub flush-Ends : (go : Item → Build) → Ends (flush_pre_post go)
  unfolding flush_pre_post build_post_items
  flush-Ends go ctx h =
      Safe-bind Any Quiet (deref ctx.pre_output) _ (deref-Safe ctx) (λ s u. rw h.0 (refl, h.1))

  module _ (go : Build) (ends : Ends go) where
    pub opt-Ends : Ends (build_opt go)
    unfolding build_opt
    opt-Ends ctx h =
        Safe-if Quiet (do_shortest ctx) _ _ h (
          Safe-if Quiet (maybe ctx.rand).0 _ _ h
            (ends (record ctx { rand = (maybe ctx.rand).1 }) h))

    pub pre-Ends : Ends (build_pre go)
    unfolding build_pre
    pre-Ends ctx h = Safe-bind Any Quiet (deref ctx.pre_output) _ (deref-Safe ctx) (λ s u.
        Safe-bind Quiet Quiet (go _) _ (ends (record ctx { output = s; pre_output = at [] }) h)
          (λ c k. k))

    pub capture-Ends : Ends (build_capture go)
    unfolding build_capture
    capture-Ends ctx h = Safe-bind Quiet Quiet (go ctx) _ (ends ctx h) (λ c k.
        Safe-if Quiet (ltb (length c.output) (length ctx.output)) (fail Fault.out_of_range) _ tt k)

    pub store-Ends :
        (rule_idx : ℕ) (clobber invisible : Bool) → Ends (build_store go rule_idx clobber invisible)
    unfolding build_store
    store-Ends rule_idx clobber invisible ctx h =
        Safe-bind Quiet Quiet (go ctx) _ (ends ctx h) (λ c k.
          let m : RuleManager = if clobber then clear_rule_values c.rules rule_idx else c.rules in
          Safe-if Quiet (ltb (length c.output) (length ctx.output)) (fail Fault.thrown) _ tt (
            Safe-if Quiet (length c.output == length ctx.output) (ok c) _ k (
              Safe-bind (Ranked rank positive) Quiet
                (add_rule m rule_idx (raw (drop (length ctx.output) c.output))) _
                (add_rule-Ranked rank positive m rule_idx (drop (length ctx.output) c.output)
                  (clobber-Ranked clobber rule_idx c.rules k.1))
                (λ m' k'. (k.0, k')))))
