-- ===== src/Calc/Reach.antt =====
-- Which alternatives can be built at all: ws/libresmack/src/calc/reach.cpp, calc/reach.hpp and the
-- `CalcReachability` methods of src/items/.
use Prim.Native.String.{String}
use resmack.Prelude.{
  ℕ, zero, suc, ◌+◌, Bool, true, false, ◌||◌, List, [], ◌∷◌, none, some, ltb, ◌==◌, if◌then◌else◌,
  length,
}
use resmack.Prelude.Outcome.{Outcome, ok, fail, or_fail, Fault, ◌>>=◌}
use resmack.Item.{
  Item, Items, raw, str, int, alt, seq, ref, opt, id, scope, scope_action, pre, post, capture,
  captured, flush, flushed, store, nil, cons,
}
use resmack.Item.Rule.{Rule, set_keep}
use resmack.Manager.{RuleManager, index_of, name_of, get_rule, set_rule, ensure_name, prune_idx}

-- What a `Reach` keeps from one `Calc` to the next, beside the manager.
pub record ReachState : Type 0 where
  pub pruned : List ℕ
  pub num_changes : ℕ

pub record Walk : Type 0 where
  pub man : RuleManager
  pub changes : ℕ

abbrev pub contains : List ℕ → ℕ → Bool
contains [] i = false
contains (j ∷ js) i = j == i || contains js i

-- `Reach::Ensure`; the number is `*out`, which stays as it was if the name is not found.
unfoldable pub reach_ensure : Walk → String → ℕ → Outcome (ℕ × Walk)
reach_ensure w rule_name out = ensure_name w.man rule_name >>= λ p.
    let (i, m) = p in
    or_fail (get_rule m i) Fault.null_deref >>= λ rule.
    let m' = set_rule m i (some (set_keep rule true)) in
    ok (
      elim (index_of m' rule_name) [ none ↦ out | some j ↦ j ],
      record {
        man = m';
        changes =
            if length w.man.top.rules == length m'.top.rules then w.changes else w.changes + 1;
      },
    )

-- `Found` is the result, the item with what the call wrote into it, and the walk.
abbrev pub Found : Type 0
Found = Bool × Item × Walk

-- The result of a call on a part, with the part put back into its place.
abbrev within : (Item → Item) → Outcome Found → Outcome Found
within f o = o >>= λ p. let (b, x, w) = p in ok (b, f x, w)

unfoldable mutual
  pub calc_item : Item → Walk → Outcome Found
  calc_item (raw d) w = ok (true, raw d, w)
  calc_item (str min range charset) w = ok (true, str min range charset, w)
  calc_item (int min range) w = ok (true, int min range, w)
  calc_item (alt xs c) w = calc_alternatives xs 0 w >>= λ p.
      let (found, xs', w') = p in
      ok (c.keep || ltb 0 (length found), alt xs' (record c { choice_indices = found }), w')
  calc_item (seq xs sep) w =
      calc_sequence xs w >>= λ p. let (b, xs', w') = p in ok (b, seq xs' sep, w')
  calc_item (ref rule_name rule_idx scoped) w = elim (index_of w.man rule_name) [
    | none ↦ ok (false, ref rule_name rule_idx scoped, w)
    | some i ↦ ok (true, ref rule_name i scoped, w)
  ]
  calc_item (opt x) w = calc_item x w >>= λ p. let (b, x', w') = p in ok (true, opt x', w')
  calc_item (id rule_name rule_idx) w =
      reach_ensure w rule_name rule_idx >>= λ p. let (i, w') = p in ok (true, id rule_name i, w')
  calc_item (scope x) w = within scope (calc_item x w)
  calc_item (scope_action push) w = ok (true, scope_action push, w)
  calc_item (pre x) w = within pre (calc_item x w)
  calc_item (post x) w = within post (calc_item x w)
  calc_item (capture x) w = within capture (calc_item x w)
  calc_item captured w = ok (true, captured, w)
  calc_item flush w = ok (true, flush, w)
  calc_item (flushed x) w = within flushed (calc_item x w)
  calc_item (store x rule_name rule_idx clobber invisible) w =
      reach_ensure w rule_name rule_idx >>= λ p.
      let (i, w') = p in within (λ x'. store x' rule_name i clobber invisible) (calc_item x w')

  -- The loop of `Or`: the indices, from `idx` on, of the items that are reachable.
  pub calc_alternatives : Items → ℕ → Walk → Outcome (List ℕ × Items × Walk)
  calc_alternatives nil idx w = ok ([], nil, w)
  calc_alternatives (cons x xs) idx w = calc_item x w >>= λ p.
      let (b, x', w1) = p in
      calc_alternatives xs (suc idx) w1 >>= λ q.
      let (found, xs', w2) = q in ok (if b then idx ∷ found else found, cons x' xs', w2)

  -- The loop of `And`, which stops at the first item that is not reachable.
  pub calc_sequence : Items → Walk → Outcome (Bool × Items × Walk)
  calc_sequence nil w = ok (true, nil, w)
  calc_sequence (cons x xs) w = calc_item x w >>= λ p.
      let (b, x', w1) = p in
      if b
      then (calc_sequence xs w1 >>= λ q. let (b', xs', w2) = q in ok (b', cons x' xs', w2))
      else ok (false, cons x' xs, w1)

-- `CalcItem` of the rule in slot `i`. `Ensure` may have set the rule's own keep flag on the way.
unfoldable pub calc_rule : ℕ → Rule → Walk → Outcome (Bool × Walk)
calc_rule i rule w = calc_alternatives rule.items 0 w >>= λ p.
    let (found, xs, w') = p in
    or_fail (get_rule w'.man i) Fault.null_deref >>= λ now.
    let c = record (now.choices) { choice_indices = found } in
    ok (
      c.keep || ltb 0 (length found),
      record w' { man = set_rule w'.man i (some (record { items = xs; choices = c })) },
    )

-- The first loop of `Calc`, over a table that may grow while it runs. It gives `tmp_to_prune_`.
unfoldable pub mark_loop : ℕ → List ℕ → ℕ → Walk → Outcome (List ℕ × Walk)
mark_loop zero pruned i w = fail Fault.no_fuel
mark_loop (suc fuel) pruned i w =
    let skip = mark_loop fuel pruned (suc i) w in
    let visit = or_fail (get_rule w.man i) Fault.null_deref >>= λ rule. calc_rule i rule w >>= λ p.
    let (b, w1) = p in
    mark_loop fuel pruned (suc i) w1 >>= λ q.
    let (marked, w2) = q in ok (if b then marked else i ∷ marked, w2) in
    if ltb i (length w.man.top.rules)
    then (elim (get_rule w.man i) [
      | none ↦ skip
      | some r ↦ if contains pruned i then skip else visit
    ])
    else ok ([], w)

-- The second loop, which prunes.
unfoldable pub prune_loop : List ℕ → Walk → List ℕ → Walk × List ℕ
prune_loop [] w pruned = (w, pruned)
prune_loop (i ∷ rest) w pruned = elim (name_of w.man i) [
  | none ↦ prune_loop rest w pruned
  | some s ↦
      prune_loop rest (record { man = prune_idx w.man i; changes = w.changes + 1 }) (i ∷ pruned)
]

-- `Reach::Calc`.
unfoldable pub reach_calc : ℕ → RuleManager → ReachState → Outcome (RuleManager × ReachState)
reach_calc fuel m reach = mark_loop fuel reach.pruned 0 (record { man = m; changes = 0 }) >>= λ p.
    let (marked, w) = p in
    let (w', pruned) = prune_loop marked w reach.pruned in
    ok (w'.man, record { pruned = pruned; num_changes = w'.changes })
