-- ===== src/Build/Calm.antt =====
-- The contexts in which a grammar of bounded rank is built: analysed, with no scope and nothing that
-- is to be built later; and the methods of ws/libresmack/src/items/ that build no other item.
use resmack.Prelude.{
  ℕ, ◌+◌, ◌≤◌, ◌%◌, ◌^◌, ◌≡◌, refl, true, false, List, [], some, leb, length, get_elem?, inl, inr,
  Option-cases, Bool-cases,
}
use resmack.Prelude.Outcome.{fail, Fault, or_fail}
use resmack.Prelude.Int.{ℤ, pos, ◌+ℤ◌, abs_ℤ}
use resmack.Rand.{next, rand_bytes}
use resmack.Item.{raw}
use resmack.Item.Rule.{Rule, new_rule, add_item, clear_items}
use resmack.Manager.{RuleManager, get_rule, set_rule, ensure_idx, inherit_keep, clear_rule_values}
use resmack.Build.Context.{Ctx, Env}
use resmack.Build.Items.{
  add_rule, append_rand_bytes, build_str, build_int, build_id, build_captured, charset_alpha, rem,
  in_int64,
}
use resmack.Build.Safe.{
  Safe, Any, Safe-bind, Safe-if, Safe-or_fail, or_fail-Safe, rem-Safe, rand_bytes-Safe,
}
use resmack.Build.Ranked.{Fit, Fit-push, AllFit, set-AllFit}

module _ (rank : ℕ → ℕ) (positive : (i : ℕ) → 1 ≤ rank i) where
  -- Analysed rules that keep to their ranks, in the outermost scope.
  abbrev pub Ranked : RuleManager → Type 0
  Ranked m = (m.top.finalized ≡ true) × (m.parents ≡ []) × AllFit rank m.top.rules

  abbrev pub Calm : Ctx → Type 0
  Calm ctx = (ctx.post_items ≡ []) × Ranked ctx.rules

  set_rule-Ranked :
      (m : RuleManager) (i : ℕ) (r : Rule)
      → Ranked m
      → Fit rank (rank i) r.items
      → Ranked (set_rule m i (some r))
  set_rule-Ranked m i r h f = (h.0, h.1, set-AllFit rank m.top.rules i r h.2 f)

  ensure_idx-Ranked : (m : RuleManager) (i : ℕ) → Ranked m → Safe Ranked (ensure_idx m i)
  unfolding ensure_idx inherit_keep
  ensure_idx-Ranked m i h = elim (Option-cases (get_rule m i)) [
    | inl missing ↦
        rw (missing, ensure_idx, h.1)
          (Safe-bind Any Ranked (or_fail (get_elem? m.top.rules i) Fault.out_of_range) _
            (or_fail-Safe (get_elem? m.top.rules i) Fault.out_of_range tt)
            (λ o u. (h.0, refl, set-AllFit rank m.top.rules i (new_rule false) h.2 tt)))
    | inr (rule, found) ↦ rw (found, ensure_idx) h
  ]

  pub add_rule-Ranked :
      (m : RuleManager) (i : ℕ) (s : List ℕ) → Ranked m → Safe Ranked (add_rule m i (raw s))
  unfolding add_rule add_item get_rule
  add_rule-Ranked m i s h =
      Safe-bind Ranked Ranked (ensure_idx m i) _ (ensure_idx-Ranked m i h) (λ m1 h1.
        Safe-bind (λ (r : Rule). get_rule m1 i ≡ some r) Ranked
          (or_fail (get_rule m1 i) Fault.null_deref) _
          (Safe-or_fail (get_rule m1 i) Fault.null_deref tt)
          (λ r e.
            set_rule-Ranked m1 i (add_item r (raw s)) h1
              (Fit-push rank (rank i) r.items s (positive i) (h1.2 i r e))))

  pub clear_rule_values-Ranked :
      (m : RuleManager) (i : ℕ) → Ranked m → Ranked (clear_rule_values m i)
  unfolding clear_rule_values clear_items
  clear_rule_values-Ranked m i h = elim (Bool-cases (leb (length m.top.rules) i)) [
    | inl past ↦ rw past h
    | inr within ↦ rw within (elim (Option-cases (get_rule m i)) [
      | inl missing ↦ rw missing h
      | inr (r, found) ↦ rw found (set_rule-Ranked m i (clear_items r) h tt)
    ])
  ]

  pub build_str-Calm :
      (min range : ℕ) (charset : List ℕ) (ctx : Ctx)
      → Calm ctx
      → Safe Calm (build_str min range charset ctx)
  unfolding build_str append_rand_bytes
  build_str-Calm min range charset ctx h =
      Safe-bind Any Calm (rem (next ctx.rand).0 range) _ (rem-Safe (next ctx.rand).0 range) (λ k u.
        Safe-bind Any Calm (rand_bytes (next ctx.rand).1 charset ((min + k) % 2 ^ 32)) _
          (rand_bytes-Safe (next ctx.rand).1 charset ((min + k) % 2 ^ 32)) (λ p u'. h))

  pub build_int-Calm :
      (env : Env) (min range : ℤ) (ctx : Ctx) → Calm ctx → Safe Calm (build_int env min range ctx)
  unfolding build_int
  build_int-Calm env min range ctx h =
      Safe-bind Any Calm (rem (next ctx.rand).0 (abs_ℤ range)) _
        (rem-Safe (next ctx.rand).0 (abs_ℤ range))
        (λ k u. Safe-if Calm (in_int64 (min +ℤ pos k)) _ (fail Fault.out_of_range) h tt)

  pub build_id-Calm : (rule_idx : ℕ) (ctx : Ctx) → Calm ctx → Safe Calm (build_id rule_idx ctx)
  unfolding build_id
  build_id-Calm rule_idx ctx h =
      Safe-bind Any Calm (rand_bytes ctx.rand charset_alpha 10) _
        (rand_bytes-Safe ctx.rand charset_alpha 10)
        (λ p u.
          Safe-bind Ranked Calm (add_rule ctx.rules rule_idx (raw p.0)) _
            (add_rule-Ranked ctx.rules rule_idx p.0 h.1) (λ m h'. (h.0, h')))

  pub build_captured-Calm : (ctx : Ctx) → Calm ctx → Safe Calm (build_captured ctx)
  unfolding build_captured
  build_captured-Calm ctx h =
      Safe-bind Any Calm (or_fail (get_elem? ctx.captures ctx.ref_depth) Fault.out_of_range) _
        (or_fail-Safe (get_elem? ctx.captures ctx.ref_depth) Fault.out_of_range tt) (λ s u. h)
