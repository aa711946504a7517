-- ===== src/Build.antt =====
-- Building text from a grammar: `BuildContext` (ws/libresmack/include/resmack/build_context.hpp,
-- src/build_context.cpp), `Rules::Build` (src/rules.cpp) and the `Build` methods of src/items/.
-- The fuel bounds the depth of calls of `Item::Build`. A string that `pre_output` or `output` points
-- to is a value in the context; what the code keeps by a local pointer is put back by value. The one
-- case where this differs is a `pre_output` that points to a local of a call that has returned: that
-- is `dangling`. The printing of integers (fmt) and the order of hash maps are parameters, in `Env`.
pub mod Context
pub mod Items
pub mod Text
pub mod Flush
pub mod Depth
pub mod KeepsDepth
pub mod Safe
pub mod Ranked
pub mod Calm
pub mod Quiet
pub mod Ends
pub mod Replays
mod Tests
use Prim.Native.String.{String}
use resmack.Prelude.{
  ℕ, zero, suc, ◌+◌, ◌-◌, ◌%◌, ◌^◌, Bool, true, false, not, ◌&&◌, ◌||◌, List, [], ◌∷◌, ◌++◌, Option,
  none, some, ltb, leb, ◌==◌, if◌then◌else◌, length, get_elem?, set, take, drop, map,
}
use resmack.Prelude.Int.{ℤ, pos, ◌+ℤ◌, abs_ℤ}
use resmack.Prelude.Outcome.{Outcome, ok, fail, or_fail, guard, Fault, ◌>>=◌, ◌>>◌}
use resmack.Rand.{Rand, RandSnapshot, next, maybe, rand_bytes, snapshot_state}
use resmack.Item
use resmack.Item.{
  Item, raw, str, int, alt, seq, ref, opt, id, scope, scope_action, pre, post, capture, captured,
  flush, flushed, store,
}
use resmack.Manager.{RuleManager, get_unshadowed_rule, get_any_rule, index_of}
use resmack.Calc.{finalize}
use Context.{
  Ctx, Env, PreOutput, Build, null, dangling, at, append, new_ctx, do_shortest, inc_depth,
  dec_depth, flush_pre_post, maybe_do_rand_replay, maybe_undo_rand_replay,
}
use Items.{
  build_str, build_int, build_or, build_seq, build_opt, build_id, build_scope, build_scope_action,
  build_pre, build_capture, build_captured, build_flushed, build_store, build_rule,
}

-- `Rules::Build(rule_idx, ctx, unshadowed)`, on `ctx->rules`, with the call of `Build` on the rule's
-- item left to `go`. The result is the return value.
unfoldable pub rules_build : Env → (Item → Build) → ℕ → Bool → Ctx → Outcome (Bool × Ctx)
rules_build env go rule_idx unshadowed ctx =
    (if ctx.rules.top.finalized
      then ok (ctx.rules)
      else finalize env.map_order env.calc_fuel ctx.rules)
    >>= λ m.
        (if unshadowed
          then ok (get_unshadowed_rule m rule_idx, ctx.rand)
          else get_any_rule m rule_idx ctx.rand)
        >>= λ p.
            let (found, r) = p in
            elim found [
              | none ↦ ok (false, record ctx { rules = m; rand = r })
              | some rule ↦
                  build_rule go rule rule_idx (record ctx { rules = m; rand = r }) >>= λ ctx'.
                  ok (true, ctx')
            ]

-- `Ref::Build`, which does not look at the return value of `Rules::Build`.
unfoldable pub build_ref : Env → (Item → Build) → ℕ → Bool → Build
build_ref env go rule_idx scoped ctx = do
  c ← inc_depth ctx
  (built, c') ← rules_build env go rule_idx scoped c
  dec_depth c'

-- `Item::Build`.
unfoldable pub build : Env → ℕ → Item → Build
build env zero item ctx = fail Fault.no_fuel
build env (suc fuel) (raw d) ctx = ok (append d ctx)
build env (suc fuel) (str min range charset) ctx = build_str min range charset ctx
build env (suc fuel) (int min range) ctx = build_int env min range ctx
build env (suc fuel) (alt xs c) ctx = build_or (build env fuel) xs c ctx
build env (suc fuel) (seq xs sep) ctx = build_seq (build env fuel) xs sep ctx
build env (suc fuel) (ref rule_name rule_idx scoped) ctx =
    build_ref env (build env fuel) rule_idx scoped ctx
build env (suc fuel) (opt x) ctx = build_opt (build env fuel x) ctx
build env (suc fuel) (id rule_name rule_idx) ctx = build_id rule_idx ctx
build env (suc fuel) (scope x) ctx = build_scope (build env fuel x) ctx
build env (suc fuel) (scope_action push) ctx = build_scope_action push ctx
build env (suc fuel) (pre x) ctx = build_pre (build env fuel x) ctx
build env (suc fuel) (post x) ctx = ok (record ctx { post_items = ctx.post_items ++ some x ∷ [] })
build env (suc fuel) (capture x) ctx = build_capture (build env fuel x) ctx
build env (suc fuel) captured ctx = build_captured ctx
build env (suc fuel) flush ctx = flush_pre_post (build env fuel) ctx
build env (suc fuel) (flushed x) ctx = build_flushed fuel (build env fuel) x ctx
build env (suc fuel) (store x rule_name rule_idx clobber invisible) ctx =
    build_store (build env fuel x) rule_idx clobber invisible ctx

-- `Rules::Build(rule_idx, output, rand, max_depth)`.
unfoldable pub build_idx : Env → ℕ → RuleManager → ℕ → List ℕ → Rand → ℕ → Outcome (Bool × Ctx)
build_idx env fuel m rule_idx output r max_depth =
    rules_build env (build env fuel) rule_idx false (new_ctx m output r max_depth)

-- `Rules::Build(rule_name, output, rand, max_depth)`.
unfoldable pub build_named :
    Env → ℕ → RuleManager → String → List ℕ → Rand → ℕ → Outcome (Bool × Ctx)
build_named env fuel m rule_name output r max_depth = elim (index_of m rule_name) [
  | none ↦ ok (false, new_ctx m output r max_depth)
  | some rule_idx ↦ build_idx env fuel m rule_idx output r max_depth
]
