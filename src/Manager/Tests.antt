-- ===== src/Manager/Tests.antt =====
-- The manager of ws/libresmack/src/rule_man.cpp with two rules, and a child of it.
use Prim.Native.String.{String}
use resmack.Prelude.{
  List, ℕ, ◌<◌, ◌≡◌, ◌≢◌, refl, ◌⊎◌, [], ◌∷◌, true, false, none, some, length, get_elem?, arith,
}
use resmack.Prelude.Outcome.{ok, fail, Fault}
use resmack.Rand.{Rand, next}
use resmack.Item.Rule.{Rule, new_rule, set_keep, should_keep}
use resmack.Manager.{
  RuleManager, Frame, init, index_of, name_of, get_rule, rule_in, set_rule, ensure_name, ensure_idx,
  inherit_keep, prune_name, valid_rule_name, new_child, get_root_rule, root_of, get_unshadowed_rule,
  get_any_rule,
}
use resmack.Manager.Names.{IsNamed, with_new, init-IsNamed, with_new-IsNamed, ensure_name_root}
use resmack.Manager.Tables.{prune_keeps_name}
use resmack.Manager.Scopes.{ensure_in_child}
use resmack.Manager.AnyRule.{IsLevel, get_any_rule_cases}

abbrev seeded : Rand
seeded = record {
  s = record { s0 = 7; s1 = 11; s2 = 13; s3 = 17 };
  snapshots = [];
  should_record = false;
  use_last_gaussian = false;
}

abbrev one_rule : RuleManager
one_rule = with_new init "start"

abbrev two_rules : RuleManager
two_rules = with_new one_rule "name"

one_rule-IsNamed : IsNamed one_rule
unfolding init index_of
one_rule-IsNamed = with_new-IsNamed init "start" init-IsNamed refl

name_is_new : index_of one_rule "name" ≡ none
unfolding init index_of
name_is_new = refl

two_rules-IsNamed : IsNamed two_rules
two_rules-IsNamed = with_new-IsNamed one_rule "name" one_rule-IsNamed name_is_new

is_root : two_rules.parents ≡ []
unfolding init
is_root = refl

ensure_test : ensure_name two_rules "name" ≡ ok (1, two_rules)
unfolding ensure_name init index_of get_rule inherit_keep
ensure_test = refl

ensure_name_root_example :
    (i : ℕ) × (m' : RuleManager) × (rule : Rule) × (ensure_name two_rules "item" ≡ ok (i, m'))
    × IsNamed m'
    × (index_of m' "item" ≡ some i)
    × (get_rule m' i ≡ some rule)
    × ((t : String) → t ≢ "item" → index_of m' t ≡ index_of two_rules t)
    × ((j : ℕ) → j ≢ i → get_rule m' j ≡ get_rule two_rules j)
ensure_name_root_example = ensure_name_root two_rules "item" is_root two_rules-IsNamed

name_is_known : index_of two_rules "name" ≡ some 1
unfolding init index_of
name_is_known = refl

prune_keeps_name_example :
    let m' = prune_name two_rules "name" in
    IsNamed m'
    × (index_of m' "name" ≡ some 1)
    × (get_rule m' 1 ≡ none)
    × (valid_rule_name m' "name" ≡ ok false)
    × ((j : ℕ) → j ≢ 1 → get_rule m' j ≡ get_rule two_rules j)
    × (ensure_name m' "name" ≡ ok (1, set_rule m' 1 (some (new_rule false))))
prune_keeps_name_example =
    prune_keeps_name two_rules "name" 1 is_root two_rules-IsNamed name_is_known

has_root : get_root_rule two_rules 1 ≡ some (new_rule false)
unfolding init get_root_rule root_of
has_root = refl

has_slot : 1 < length two_rules.top.rules
unfolding init
has_slot = omega arith

ensure_in_child_example :
    (m' : RuleManager) × (ensure_idx (new_child two_rules) 1 ≡ ok m')
    × (get_unshadowed_rule m' 1 ≡ some (set_keep (new_rule false) (should_keep (new_rule false))))
    × ((j : ℕ) → j ≢ 1 → get_unshadowed_rule m' j ≡ get_unshadowed_rule two_rules j)
    × (m'.parents ≡ two_rules.top ∷ two_rules.parents)
    × (m'.names ≡ two_rules.names)
ensure_in_child_example = ensure_in_child two_rules 1 (new_rule false) has_slot has_root

abbrev child : RuleManager
child = record {
  names = two_rules.names;
  top = record { finalized = false; rules = none ∷ some (new_rule true) ∷ [] };
  parents = two_rules.top ∷ [];
}

child-IsNamed : IsNamed child
unfolding init index_of name_of
child-IsNamed = record {
  in_range = two_rules-IsNamed.in_range;
  to_name = two_rules-IsNamed.to_name;
  to_idx = two_rules-IsNamed.to_idx;
  named = two_rules-IsNamed.named;
}

child-IsLevel : IsLevel child
unfolding init
child-IsLevel = (refl, tt)

get_any_rule_cases_example :
    ((child.parents ≡ []) × (get_any_rule child 1 seeded ≡ ok (get_rule child 1, seeded)))
    ⊎ ((p : Frame) × (ps : List Frame) × (child.parents ≡ p ∷ ps)
        × (get_unshadowed_rule child 1 ≡ none)
        × (get_any_rule child 1 seeded ≡ fail Fault.div_by_zero))
    ⊎ ((p : Frame) × (ps : List Frame) × (rule : Rule) × (frame : Frame) × (k : ℕ) × (child.parents
          ≡ p ∷ ps)
        × (get_elem? (child.top ∷ child.parents) k ≡ some frame)
        × (rule_in frame 1 ≡ some rule)
        × (get_any_rule child 1 seeded ≡ ok (some rule, (next seeded).1)))
get_any_rule_cases_example =
    get_any_rule_cases child 1 seeded child-IsNamed child-IsLevel (omega arith)
