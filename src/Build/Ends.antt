-- ===== src/Build/Ends.antt =====
-- Building from a grammar whose references form no cycle: the `Build` methods of
-- ws/libresmack/src/items/ that build several items, `Rules::Build` of src/rules.cpp and the flush of
-- src/build_context.cpp.
use resmack.Prelude.{
  ℕ, zero, suc, ◌+◌, ◌≤◌, ◌^◌, ◌≡◌, ◌≢◌, refl, sym, ◌-◌, Bool, true, false, ◌&&◌, ◌||◌, List, [],
  ◌∷◌, Option, none, some, ltb, leb, ◌==◌, if◌then◌else◌, length, arith, inl, inr, Option-cases,
}
use resmack.Prelude.Outcome.{Fault, ok, fail, ◌>>=◌}
use resmack.Rand.{Rand}
use resmack.Item.{
  Item, Items, Choices, raw, str, int, alt, seq, ref, opt, id, scope, scope_action, pre, post,
  capture, captured, flush, flushed, store, nil, cons, num_items, intends_output,
}
use resmack.Item.Rule.{Rule, choose}
use resmack.Manager.{
  RuleManager, Frame, get_rule, get_any_rule, get_unshadowed_rule, first_rule, rule_in,
}
use resmack.Build.Context.{
  Ctx, Env, Build, dangling, at, append, do_shortest, inc_depth, dec_depth, flush_pre_post,
  maybe_do_rand_replay, maybe_undo_rand_replay, new_ctx,
}
use resmack.Build.Items.{
  build_or, build_seq, seq_loop, build_flushed, flushed_loop, build_rule, build_rule_in,
  finish_rule, record_snapshot, new_saved,
}
use resmack.Build.{build, build_ref, rules_build, build_idx}
use resmack.Build.Safe.{Safe, Safe-bind, Safe-if, Safe-ne}
use resmack.Build.Ranked.{inner, total, Plain, Fit, total-Fit, Fit-more, choose-Safe, AllFit}
use resmack.Build.Calm.{Calm, build_str-Calm, build_int-Calm, build_id-Calm, build_captured-Calm}
use resmack.Build.Quiet.{
  Quiet, Ends, sep-Quiet, own-Quiet, snapshot-Quiet, do-Quiet, undo-Quiet, flush-Ends, opt-Ends,
  pre-Ends, capture-Ends, store-Ends,
}
use resmack.Build.KeepsDepth.{pre_cases}

module _ (rank : ℕ → ℕ) (positive : (i : ℕ) → 1 ≤ rank i) where
  not_past : {n : ℕ} → suc n ≤ 0 → ⊥
  not_past h = omega (arith, h)

  one_frame : (frame : Frame) (i : ℕ) → first_rule (frame ∷ []) i ≡ rule_in frame i
  unfolding first_rule
  one_frame frame i = elim (Option-cases (rule_in frame i)) [
    | inl missing ↦ rw (missing, first_rule) refl
    | inr (r, found) ↦ rw (found, first_rule) refl
  ]

  abbrev analysed : Ctx → Ctx
  analysed ctx = record ctx {
    rules = record (ctx.rules) { top = record (ctx.rules.top) { finalized = true } };
  }

  module _ (go : Item → Build) (n : ℕ)
      (ends : (x : Item) → Plain x → suc (inner rank x) ≤ n → Ends rank positive (go x)) where
    or-Ends : (xs : Items) (c : Choices) → Fit rank n xs → Ends rank positive (build_or go xs c)
    unfolding build_or
    or-Ends xs c f ctx h =
        Safe-bind (λ (p : Item × Rand). Plain p.0 × (suc (inner rank p.0) ≤ n))
          (Quiet rank positive) (choose (do_shortest ctx) xs c ctx.rand) _
          (choose-Safe rank n (do_shortest ctx) xs c ctx.rand f)
          (λ p k. ends p.0 k.0 k.1 (record ctx { rand = p.1 }) h)

    seq_loop-Ends :
        (size : ℕ) (sep : List ℕ) (xs : Items) (count : ℕ) (had : Bool)
        → Fit rank n xs
        → Ends rank positive (seq_loop go size sep xs count had)
    unfolding seq_loop
    seq_loop-Ends size sep nil count had f ctx h = h
    seq_loop-Ends size sep (cons x xs) count had f ctx h =
        let b = had && intends_output x && ltb 0 (length sep) && ltb 0 count && leb count size in
        Safe-bind (Quiet rank positive) (Quiet rank positive)
          (go x (if b then append sep ctx else ctx)) _
          (ends x f.0 f.1 (if b then append sep ctx else ctx) (sep-Quiet rank positive b sep ctx h))
          (seq_loop-Ends size sep xs (count + 1) (had || intends_output x) f.2)

    flushed-Ends :
        (x : Item) (fuel : ℕ)
        → 1 ≤ fuel
        → Plain x
        → suc (inner rank x) ≤ n
        → Ends rank positive (build_flushed fuel go x)
    unfolding build_flushed flushed_loop
    flushed-Ends x zero le p e ctx h = elim (not_past le) [ ]
    flushed-Ends x (suc fuel) le p e ctx h =
        Safe-bind (Quiet rank positive) (Quiet rank positive) (go x _) _
          (ends x p e (record ctx { pre_output = at []; output = [] }) h)
          (λ c k. rw (h.0, k.0) (refl, k.1))

    rule_in-Ends :
        (rule : Rule) (rule_idx : ℕ) (own : Bool)
        → Fit rank n rule.items
        → Ends rank positive (build_rule_in go rule rule_idx own)
    unfolding build_rule_in finish_rule
    rule_in-Ends rule rule_idx own f ctx h =
        let p = maybe_do_rand_replay (new_saved ctx) ctx in
        Safe-bind (Quiet rank positive) (Quiet rank positive)
          (build_or go rule.items rule.choices (record_snapshot rule_idx p.1)) _
          (or-Ends rule.items rule.choices f (record_snapshot rule_idx p.1) (
            snapshot-Quiet rank positive rule_idx p.1
              (do-Quiet rank positive (new_saved ctx) ctx h)))
          (λ c k.
            let c' = maybe_undo_rand_replay p.0 c in
            let k' = undo-Quiet rank positive p.0 c k in
            Safe-if (Quiet rank positive) (c'.ref_depth == 0) (flush_pre_post go c') _
              (flush-Ends rank positive go c' k') (own-Quiet rank positive own c' k'))

    rule-Ends :
        (rule : Rule) (rule_idx : ℕ)
        → Fit rank n rule.items
        → Ends rank positive (build_rule go rule rule_idx)
    unfolding build_rule
    rule-Ends rule rule_idx f ctx h = elim (pre_cases ctx.pre_output) [
      | inl is_null ↦
          rw is_null (rule_in-Ends rule rule_idx true f (record ctx { pre_output = at [] }) h)
      | inr (inl gone) ↦
          rw gone (rule_in-Ends rule rule_idx false f (record ctx { pre_output = dangling }) h)
      | inr (inr (s, there)) ↦
          rw there (rule_in-Ends rule rule_idx false f (record ctx { pre_output = at s }) h)
    ]

    -- What `Rules::Build` needs of the ranks: that the rule's is not above the fuel.
    found-Ends :
        (rule_idx : ℕ) (found : Option Rule) (ctx : Ctx)
        → Quiet rank positive ctx
        → rank rule_idx ≤ n
        → found ≡ rule_in ctx.rules.top rule_idx
        → Safe
            (λ (p : Bool × Ctx). Quiet rank positive p.1)
            (elim found [
              | none ↦ ok (false, ctx)
              | some rule ↦ build_rule go rule rule_idx ctx >>= λ c. ok (true, c)
            ])
    found-Ends rule_idx none ctx h le e = h
    found-Ends rule_idx (some rule) ctx h le e =
        Safe-bind (Quiet rank positive) (λ (p : Bool × Ctx). Quiet rank positive p.1)
          (build_rule go rule rule_idx ctx) _
          (rule-Ends rule rule_idx
            (Fit-more rank (rank rule_idx) n rule.items le (h.1.2 rule_idx rule (sym e))) ctx h)
          (λ c k. k)

    rules_build-Ends :
        (env : Env) (rule_idx : ℕ) (unshadowed : Bool) (ctx : Ctx)
        → rank rule_idx ≤ n
        → Quiet rank positive ctx
        → Safe
            (λ (p : Bool × Ctx). Quiet rank positive p.1)
            (rules_build env go rule_idx unshadowed ctx)
    unfolding rules_build get_any_rule get_unshadowed_rule first_rule get_rule
    rules_build-Ends env rule_idx true ctx le h =
        rw (h.1.0, h.1.1, rules_build)
          (found-Ends rule_idx (first_rule (ctx.rules.top ∷ []) rule_idx) (analysed ctx)
            (h.0, (refl, h.1.1, h.1.2)) le (one_frame ctx.rules.top rule_idx))
    rules_build-Ends env rule_idx false ctx le h =
        rw (h.1.0, h.1.1, rules_build)
          (found-Ends rule_idx (rule_in ctx.rules.top rule_idx) (analysed ctx)
            (h.0, (refl, h.1.1, h.1.2)) le refl)

    ref-Ends :
        (env : Env) (rule_idx : ℕ) (scoped : Bool)
        → rank rule_idx ≤ n
        → Ends rank positive (build_ref env go rule_idx scoped)
    unfolding build_ref inc_depth dec_depth
    ref-Ends env rule_idx scoped le ctx h =
        Safe-bind (Quiet rank positive) (Quiet rank positive) (inc_depth ctx) _
          (Safe-if (Quiet rank positive) (ctx.ref_depth == 2 ^ 32 - 1) (fail Fault.thrown) _ tt h)
          (λ c k.
            Safe-bind (λ (p : Bool × Ctx). Quiet rank positive p.1) (Quiet rank positive)
              (rules_build env go rule_idx scoped c) _ (rules_build-Ends env rule_idx scoped c le k)
              (λ p k'.
                Safe-if (Quiet rank positive) (p.1.ref_depth == 0) (fail Fault.thrown) _ tt k'))

  build-Ends :
      (env : Env) (fuel : ℕ) (x : Item)
      → Plain x
      → suc (inner rank x) ≤ fuel
      → Ends rank positive (build env fuel x)
  unfolding build build_seq Plain inner
  build-Ends env zero x p le ctx h = elim (not_past le) [ ]
  build-Ends env (suc fuel) (raw d) p le ctx h = h
  build-Ends env (suc fuel) (str min range charset) p le ctx h =
      build_str-Calm rank positive min range charset ctx h
  build-Ends env (suc fuel) (int min range) p le ctx h =
      build_int-Calm rank positive env min range ctx h
  build-Ends env (suc fuel) (alt xs c) p le ctx h =
      or-Ends (build env fuel) fuel (build-Ends env fuel) xs c
        (Fit-more rank (total rank xs) fuel xs (omega (arith, le)) (total-Fit rank xs p)) ctx h
  build-Ends env (suc fuel) (seq xs sep) p le ctx h =
      seq_loop-Ends (build env fuel) fuel (build-Ends env fuel) (num_items xs) sep xs 0 false
        (Fit-more rank (total rank xs) fuel xs (omega (arith, le)) (total-Fit rank xs p)) ctx h
  build-Ends env (suc fuel) (ref rule_name rule_idx scoped) p le ctx h =
      ref-Ends (build env fuel) fuel (build-Ends env fuel) env rule_idx scoped (omega (arith, le))
        ctx h
  build-Ends env (suc fuel) (opt x) p le ctx h =
      opt-Ends rank positive (build env fuel x) (build-Ends env fuel x p (omega (arith, le))) ctx h
  build-Ends env (suc fuel) (id rule_name rule_idx) p le ctx h =
      build_id-Calm rank positive rule_idx ctx h
  build-Ends env (suc fuel) (scope x) p le ctx h = elim p [ ]
  build-Ends env (suc fuel) (scope_action push) p le ctx h = elim p [ ]
  build-Ends env (suc fuel) (pre x) p le ctx h =
      pre-Ends rank positive (build env fuel x) (build-Ends env fuel x p (omega (arith, le))) ctx h
  build-Ends env (suc fuel) (post x) p le ctx h = elim p [ ]
  build-Ends env (suc fuel) (capture x) p le ctx h =
      capture-Ends rank positive (build env fuel x) (build-Ends env fuel x p (omega (arith, le)))
        ctx h
  build-Ends env (suc fuel) captured p le ctx h = build_captured-Calm rank positive ctx h
  build-Ends env (suc fuel) flush p le ctx h = flush-Ends rank positive (build env fuel) ctx h
  build-Ends env (suc fuel) (flushed x) p le ctx h =
      flushed-Ends (build env fuel) fuel (build-Ends env fuel) x fuel (omega (arith, le)) p
        (omega (arith, le)) ctx h
  build-Ends env (suc fuel) (store x rule_name rule_idx clobber invisible) p le ctx h =
      store-Ends rank positive (build env fuel x) (build-Ends env fuel x p (omega (arith, le)))
        rule_idx clobber invisible ctx h

-- A build by `Rules::Build` ends, with the rank of the rule as fuel, when the rules have been analysed
-- and have no scope, and each rule has a rank of at least one that leaves room for what its items
-- refer to: a grammar whose references form no cycle. What `id` and `store` add to the rules while
-- the build runs keeps to the ranks; items that are scopes or are built later are left out.
pub build_ends :
    (rank : ℕ → ℕ) (env : Env) (fuel : ℕ) (m : RuleManager) (rule_idx : ℕ) (output : List ℕ)
    (r : Rand) (max_depth : ℕ)
    → ((i : ℕ) → 1 ≤ rank i)
    → m.top.finalized ≡ true
    → m.parents ≡ []
    → AllFit rank m.top.rules
    → rank rule_idx ≤ fuel
    → build_idx env fuel m rule_idx output r max_depth ≢ fail Fault.no_fuel
unfolding build_idx new_ctx
build_ends rank env fuel m rule_idx output r max_depth positive done alone fit le =
    Safe-ne (λ (p : Bool × Ctx). Calm rank positive p.1)
      (build_idx env fuel m rule_idx output r max_depth)
      (rules_build-Ends rank positive (build env fuel) fuel (build-Ends rank positive env fuel) env
        rule_idx false (new_ctx m output r max_depth) le (refl, (done, alone, fit)))
