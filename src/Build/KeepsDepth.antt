-- ===== src/Build/KeepsDepth.antt =====
-- That a build leaves the reference depth as it was: each `Build` method of ws/libresmack/src/items/ and
-- `Rules::Build` of src/rules.cpp, on the lemmas of Depth.antt.
use resmack.Prelude.{
  ℕ, zero, suc, ◌+◌, ◌-◌, ◌%◌, ◌^◌, get_elem?, ◌≡◌, refl, ◌∙◌, subst, Bool, true, false, List, [],
  ltb, ◌==◌, if◌then◌else◌, length, arith, Option-cases, inl, inr, ◌⊎◌, drop,
}
use resmack.Prelude.Outcome.{Fault, ok, fail, or_fail, Holds, Holds-bind, Holds-after, Holds-if}
use resmack.Prelude.Int.{ℤ, pos, ◌+ℤ◌, abs_ℤ}
use resmack.Rand.{next, maybe, rand_bytes}
use resmack.Item.{
  Item, raw, str, int, alt, seq, ref, opt, id, scope, scope_action, pre, post, capture, captured,
  flush, flushed, store, num_items,
}
use resmack.Item.Rule.{Rule}
use resmack.Calc.{finalize}
use resmack.Manager.{get_unshadowed_rule, get_any_rule, new_child, clear_rule_values}
use resmack.Build.Context.{
  Ctx, Env, PreOutput, Build, null, dangling, at, deref, do_shortest, inc_depth, dec_depth,
}
use resmack.Build.Items.{
  append_rand_bytes, build_str, build_int, build_seq, build_opt, build_id, build_scope,
  build_scope_action, restore_scope, build_pre, build_capture, build_captured, build_store,
  build_rule, frames, with_frames, charset_alpha, rem, add_rule, in_int64,
}
use resmack.Build.{build, build_ref, rules_build}
use resmack.Build.Depth.{
  SameDepth, KeepsDepth, build_or-KeepsDepth, seq_loop-KeepsDepth, flush_pre_post-KeepsDepth,
  build_flushed-KeepsDepth, build_rule_in-KeepsDepth,
}

build_str-KeepsDepth : (min range : ℕ) (charset : List ℕ) → KeepsDepth (build_str min range charset)
unfolding build_str append_rand_bytes
build_str-KeepsDepth min range charset ctx =
    let (v, r) = next ctx.rand in
    Holds-after (SameDepth ctx) (rem v range) _
      (λ k. Holds-after (SameDepth ctx) (rand_bytes r charset ((min + k) % 2 ^ 32)) _ (λ p. refl))

build_int-KeepsDepth : (env : Env) (min range : ℤ) → KeepsDepth (build_int env min range)
unfolding build_int
build_int-KeepsDepth env min range ctx =
    Holds-after (SameDepth ctx) (rem (next ctx.rand).0 (abs_ℤ range)) _
      (λ k. Holds-if (SameDepth ctx) (in_int64 (min +ℤ pos k)) _ (fail Fault.out_of_range) refl tt)

build_id-KeepsDepth : (rule_idx : ℕ) → KeepsDepth (build_id rule_idx)
unfolding build_id
build_id-KeepsDepth rule_idx ctx =
    Holds-after (SameDepth ctx) (rand_bytes ctx.rand charset_alpha 10) _
      (λ p. Holds-after (SameDepth ctx) (add_rule ctx.rules rule_idx (raw p.0)) _ (λ m. refl))

build_scope_action-KeepsDepth : (push : Bool) → KeepsDepth (build_scope_action push)
unfolding build_scope_action
build_scope_action-KeepsDepth true ctx = refl
build_scope_action-KeepsDepth false ctx =
    Holds-after (SameDepth ctx) (or_fail (with_frames ctx.rules ctx.rules.parents) Fault.null_deref)
      _ (λ m. refl)

build_captured-KeepsDepth : KeepsDepth build_captured
unfolding build_captured
build_captured-KeepsDepth ctx =
    Holds-after (SameDepth ctx) (or_fail (get_elem? ctx.captures ctx.ref_depth) Fault.out_of_range)
      _ (λ s. refl)

module _ (go : Build) (keeps : KeepsDepth go) where
  build_opt-KeepsDepth : KeepsDepth (build_opt go)
  unfolding build_opt
  build_opt-KeepsDepth ctx =
      let ctx1 = record ctx { rand = (maybe ctx.rand).1 } in
      Holds-if (SameDepth ctx) (do_shortest ctx) (ok ctx) _ refl
        (Holds-if (SameDepth ctx) (maybe ctx.rand).0 (ok ctx1) (go ctx1) refl (keeps ctx1))

  build_scope-KeepsDepth : KeepsDepth (build_scope go)
  unfolding build_scope
  build_scope-KeepsDepth ctx =
      Holds-bind (SameDepth ctx) (SameDepth ctx) (go _) _
        (keeps (record ctx { rules = new_child ctx.rules }))
        (λ c e.
          Holds-after (SameDepth ctx) (restore_scope (length (frames ctx.rules)) c.rules) _
            (λ m. e))

  build_pre-KeepsDepth : KeepsDepth (build_pre go)
  unfolding build_pre
  build_pre-KeepsDepth ctx = Holds-after (SameDepth ctx) (deref ctx.pre_output) _ (λ s.
      Holds-bind (SameDepth ctx) (SameDepth ctx) (go _) _
        (keeps (record ctx { output = s; pre_output = at [] })) (λ c e. e))

  build_capture-KeepsDepth : KeepsDepth (build_capture go)
  unfolding build_capture
  build_capture-KeepsDepth ctx =
      Holds-bind (SameDepth ctx) (SameDepth ctx) (go ctx) _ (keeps ctx) (λ c e.
        Holds-if (SameDepth ctx) (ltb (length c.output) (length ctx.output))
          (fail Fault.out_of_range) _ tt e)

  build_store-KeepsDepth :
      (rule_idx : ℕ) (clobber invisible : Bool)
      → KeepsDepth (build_store go rule_idx clobber invisible)
  unfolding build_store
  build_store-KeepsDepth rule_idx clobber invisible ctx =
      Holds-bind (SameDepth ctx) (SameDepth ctx) (go ctx) _ (keeps ctx) (λ c e.
        Holds-if (SameDepth ctx) (ltb (length c.output) (length ctx.output)) (fail Fault.thrown) _
          tt
          (Holds-if (SameDepth ctx) (length c.output == length ctx.output) (ok c) _ e (
            Holds-after (SameDepth ctx)
              (add_rule (if clobber then clear_rule_values c.rules rule_idx else c.rules) rule_idx
                (raw (drop (length ctx.output) c.output)))
              _ (λ m. e))))

abbrev Deeper : Ctx → Ctx → Type 0
Deeper ctx ctx' = ctx'.ref_depth ≡ ctx.ref_depth + 1

inc_depth-Deeper : (ctx : Ctx) → Holds (Deeper ctx) (inc_depth ctx)
unfolding inc_depth
inc_depth-Deeper ctx =
    Holds-if (Deeper ctx) (ctx.ref_depth == 2 ^ 32 - 1) (fail Fault.thrown) _ tt refl

dec_depth-back : (ctx c : Ctx) → Deeper ctx c → Holds (SameDepth ctx) (dec_depth c)
unfolding dec_depth
dec_depth-back ctx c e =
    Holds-if (SameDepth ctx) (c.ref_depth == 0) (fail Fault.thrown)
      (ok (record c { ref_depth = c.ref_depth - 1 })) tt (omega (arith, e))

pub pre_cases : (p : PreOutput) → (p ≡ null) ⊎ (p ≡ dangling) ⊎ ((s : List ℕ) × (p ≡ at s))
pre_cases null = inl refl
pre_cases dangling = inr (inl refl)
pre_cases (at s) = inr (inr (s, refl))

module _ (go : Item → Build) (keeps : (x : Item) → KeepsDepth (go x)) where
  build_rule-KeepsDepth : (rule : Rule) (rule_idx : ℕ) → KeepsDepth (build_rule go rule rule_idx)
  unfolding build_rule
  build_rule-KeepsDepth rule rule_idx ctx = elim (pre_cases ctx.pre_output) [
    | inl is_null ↦
        rw is_null
          (build_rule_in-KeepsDepth go keeps rule rule_idx true (record ctx { pre_output = at [] }))
    | inr (inl gone) ↦ rw gone (
        build_rule_in-KeepsDepth go keeps rule rule_idx false
          (record ctx { pre_output = dangling }))
    | inr (inr (s, there)) ↦
        rw there
          (build_rule_in-KeepsDepth go keeps rule rule_idx false (record ctx { pre_output = at s }))
  ]

  rules_build-KeepsDepth :
      (env : Env) (rule_idx : ℕ) (unshadowed : Bool) (ctx : Ctx)
      → Holds (λ (p : Bool × Ctx). SameDepth ctx p.1) (rules_build env go rule_idx unshadowed ctx)
  unfolding rules_build
  rules_build-KeepsDepth env rule_idx unshadowed ctx =
      let Q : Bool × Ctx → Type 0 = λ p. SameDepth ctx p.1 in
      Holds-after Q
        (if ctx.rules.top.finalized
          then ok (ctx.rules)
          else finalize env.map_order env.calc_fuel ctx.rules)
        _
        (λ m.
          Holds-after Q
            (if unshadowed
              then ok (get_unshadowed_rule m rule_idx, ctx.rand)
              else get_any_rule m rule_idx ctx.rand)
            _
            (λ p. elim (Option-cases p.0) [
              | inl missing ↦ rw missing refl
              | inr (rule, found) ↦ rw found (
                  Holds-bind (SameDepth ctx) Q (build_rule go rule rule_idx _) _
                    (build_rule-KeepsDepth rule rule_idx (record ctx { rules = m; rand = p.1 }))
                    (λ c e. e))
            ]))

  build_ref-KeepsDepth :
      (env : Env) (rule_idx : ℕ) (scoped : Bool) → KeepsDepth (build_ref env go rule_idx scoped)
  unfolding build_ref
  build_ref-KeepsDepth env rule_idx scoped ctx =
      Holds-bind (Deeper ctx) (SameDepth ctx) (inc_depth ctx) _ (inc_depth-Deeper ctx) (λ c e.
        Holds-bind (λ (p : Bool × Ctx). SameDepth c p.1) (SameDepth ctx)
          (rules_build env go rule_idx scoped c) _ (rules_build-KeepsDepth env rule_idx scoped c)
          (λ p e2. dec_depth-back ctx p.1 (e2 ∙ e)))

build-KeepsDepth : (env : Env) (fuel : ℕ) (item : Item) → KeepsDepth (build env fuel item)
unfolding build build_seq
build-KeepsDepth env zero item ctx = tt
build-KeepsDepth env (suc fuel) (raw d) ctx = refl
build-KeepsDepth env (suc fuel) (str min range charset) ctx =
    build_str-KeepsDepth min range charset ctx
build-KeepsDepth env (suc fuel) (int min range) ctx = build_int-KeepsDepth env min range ctx
build-KeepsDepth env (suc fuel) (alt xs c) ctx =
    build_or-KeepsDepth (build env fuel) (build-KeepsDepth env fuel) xs c ctx
build-KeepsDepth env (suc fuel) (seq xs sep) ctx =
    seq_loop-KeepsDepth (build env fuel) (build-KeepsDepth env fuel) (num_items xs) sep xs 0 false
      ctx
build-KeepsDepth env (suc fuel) (ref rule_name rule_idx scoped) ctx =
    build_ref-KeepsDepth (build env fuel) (build-KeepsDepth env fuel) env rule_idx scoped ctx
build-KeepsDepth env (suc fuel) (opt x) ctx =
    build_opt-KeepsDepth (build env fuel x) (build-KeepsDepth env fuel x) ctx
build-KeepsDepth env (suc fuel) (id rule_name rule_idx) ctx = build_id-KeepsDepth rule_idx ctx
build-KeepsDepth env (suc fuel) (scope x) ctx =
    build_scope-KeepsDepth (build env fuel x) (build-KeepsDepth env fuel x) ctx
build-KeepsDepth env (suc fuel) (scope_action push) ctx = build_scope_action-KeepsDepth push ctx
build-KeepsDepth env (suc fuel) (pre x) ctx =
    build_pre-KeepsDepth (build env fuel x) (build-KeepsDepth env fuel x) ctx
build-KeepsDepth env (suc fuel) (post x) ctx = refl
build-KeepsDepth env (suc fuel) (capture x) ctx =
    build_capture-KeepsDepth (build env fuel x) (build-KeepsDepth env fuel x) ctx
build-KeepsDepth env (suc fuel) captured ctx = build_captured-KeepsDepth ctx
build-KeepsDepth env (suc fuel) flush ctx =
    flush_pre_post-KeepsDepth (build env fuel) (build-KeepsDepth env fuel) ctx
build-KeepsDepth env (suc fuel) (flushed x) ctx =
    build_flushed-KeepsDepth (build env fuel) (build-KeepsDepth env fuel) fuel x ctx
build-KeepsDepth env (suc fuel) (store x rule_name rule_idx clobber invisible) ctx =
    build_store-KeepsDepth (build env fuel x) (build-KeepsDepth env fuel x) rule_idx clobber
      invisible ctx

-- A build that returns leaves the reference depth as it was, whatever the item, the context and the
-- fuel: each reference that is entered is left again.
pub build_keeps_depth :
    (env : Env) (fuel : ℕ) (item : Item) (ctx ctx' : Ctx)
    → build env fuel item ctx ≡ ok ctx'
    → ctx'.ref_depth ≡ ctx.ref_depth
build_keeps_depth env fuel item ctx ctx' h =
    subst (Holds (SameDepth ctx)) h (build-KeepsDepth env fuel item ctx)
