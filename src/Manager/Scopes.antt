-- ===== src/Manager/Scopes.antt =====
-- Scopes: what a child manager sees, and that it leaves its parents alone.
use resmack.Prelude.{
  ℕ, zero, suc, ◌<◌, ◌≡◌, ◌≢◌, refl, sym, ap, ◌∙◌, List, ◌∷◌, Option, none, some, false, length,
  get_elem?, replicate, arith, get_elem?-set_self, get_elem?-set_ne, dec_lt, get_elem?_above,
}
use resmack.Prelude.Outcome.{ok}
use resmack.Item.Rule.{Rule, new_rule, set_keep, should_keep}
use resmack.Manager.{
  RuleManager, Frame, get_rule, rule_in, set_rule, inherit_keep, ensure_idx, new_child,
  get_root_rule, root_of, first_rule, get_unshadowed_rule,
}

length-replicate : (n : ℕ) → length (replicate {A = Option Rule} n none) ≡ n
length-replicate zero = refl
length-replicate (suc n) = ap suc (length-replicate n)

get_elem?-replicate :
    (n i : ℕ) → i < n → get_elem? (replicate {A = Option Rule} n none) i ≡ some none
get_elem?-replicate zero i h = elim h [ ]
get_elem?-replicate (suc n) zero h = refl
get_elem?-replicate (suc n) (suc i) h = get_elem?-replicate n i (omega arith)

child_sees_nothing : (m : RuleManager) (i : ℕ) → rule_in (new_child m).top i ≡ none
unfolding new_child
child_sees_nothing m i = elim (dec_lt i (length m.top.rules)) [
  | yes h ↦ rw (get_elem?-replicate (length m.top.rules) i h, rule_in)
  | no h ↦ rw (
    get_elem?_above (replicate {A = Option Rule} (length m.top.rules) none) i
        (omega (arith, length-replicate (length m.top.rules))),
    rule_in,
  )
]

pub first_rule-cons :
    (f : Frame) (fs : List Frame) (i : ℕ)
    → first_rule (f ∷ fs) i ≡ (elim (rule_in f i) [ none ↦ first_rule fs i | some r ↦ some r ])
unfolding first_rule
first_rule-cons f fs i = refl

-- A child that has no rules yet shows the rules of its parent.
pub child_shows_parent :
    (m : RuleManager) (i : ℕ) → get_unshadowed_rule (new_child m) i ≡ get_unshadowed_rule m i
unfolding get_unshadowed_rule
child_shows_parent m i =
    first_rule-cons (new_child m).top (new_child m).parents i
    ∙ rw (child_sees_nothing m i) (unfold new_child in refl)

child_rule : (m : RuleManager) (i : ℕ) → get_rule (new_child m) i ≡ none
unfolding get_rule
child_rule m i = child_sees_nothing m i

child_slot :
    (m : RuleManager) (i : ℕ)
    → i < length m.top.rules
    → get_elem? (new_child m).top.rules i ≡ some none
unfolding new_child
child_slot m i h = get_elem?-replicate (length m.top.rules) i h

child_keep :
    (m : RuleManager) (i : ℕ) (rule root : Rule)
    → get_root_rule m i ≡ some root
    → inherit_keep (set_rule (new_child m) i (some rule)) i rule
      ≡ ok (set_keep rule (should_keep root))
unfolding inherit_keep new_child get_root_rule root_of
child_keep m i rule root e = rw e

child_first_self :
    (m : RuleManager) (i : ℕ) (r : Option Rule) (rule : Rule)
    → i < length m.top.rules
    → r ≡ some rule
    → get_unshadowed_rule (set_rule (new_child m) i r) i ≡ some rule
unfolding get_unshadowed_rule new_child
child_first_self m i r rule h e =
    first_rule-cons _ _ i
    ∙ rw
        (get_elem?-set_self (replicate {A = Option Rule} (length m.top.rules) none) i r
          (omega (arith, length-replicate (length m.top.rules))))
        (rw e)

child_first_ne :
    (m : RuleManager) (i j : ℕ) (r : Option Rule)
    → j ≢ i
    → get_unshadowed_rule (set_rule (new_child m) i r) j ≡ get_unshadowed_rule (new_child m) j
unfolding get_unshadowed_rule
child_first_ne m i j r ne =
    first_rule-cons _ _ j
    ∙ rw (get_elem?-set_ne (new_child m).top.rules i j r (λ e. ne (sym e)))
        (sym (first_rule-cons _ _ j))

-- In a child of `m`, `Ensure` of a rule of the outermost manager returns. It makes a rule without
-- items whose keep flag is that of the outermost rule; this rule shadows those of the parents, every
-- other rule is seen as `m` shows it, and the managers above are not changed.
pub ensure_in_child :
    (m : RuleManager) (i : ℕ) (root : Rule)
    → i < length m.top.rules
    → get_root_rule m i ≡ some root
    → (m' : RuleManager) × (ensure_idx (new_child m) i ≡ ok m')
      × (get_unshadowed_rule m' i ≡ some (set_keep (new_rule false) (should_keep root)))
      × ((j : ℕ) → j ≢ i → get_unshadowed_rule m' j ≡ get_unshadowed_rule m j)
      × (m'.parents ≡ m.top ∷ m.parents)
      × (m'.names ≡ m.names)
unfolding ensure_idx
ensure_in_child m i root h e =
    let c = new_child m in
    let rule = set_keep (new_rule false) (should_keep root) in
    (
      set_rule c i (some rule),
      rw (child_rule m i, ensure_idx)
          (rw (child_slot m i h) (rw (child_keep m i (new_rule false) root e))),
      child_first_self m i (some rule) rule h refl,
      λ j ne. child_first_ne m i j (some rule) ne ∙ child_shows_parent m j,
      unfold new_child in refl,
      unfold new_child in refl,
    )
