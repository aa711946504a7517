-- ===== src/Manager/Tables.antt =====
-- Pruning a rule, and making it anew.
use Prim.Native.String.{String}
use resmack.Prelude.{
  ℕ, ◌<◌, ◌≡◌, ◌≢◌, [], none, some, false, length, get_elem?-set_self, lt→leb_false,
}
use resmack.Prelude.Outcome.{ok}
use resmack.Item.Rule.{new_rule}
use resmack.Manager.{
  RuleManager, index_of, name_of, get_rule, set_rule, valid_rule, valid_rule_name, valid_in,
  inherit_keep, ensure_name, prune_idx, prune_name,
}
use resmack.Manager.Names.{IsNamed, set_rule-IsNamed, get_rule-set_self, get_rule-set_ne}

prune_idx-eq :
    (m : RuleManager) (i : ℕ) → i < length m.top.rules → prune_idx m i ≡ set_rule m i none
unfolding prune_idx
prune_idx-eq m i h = rw (lt→leb_false _ _ h)

pruned-valid :
    (m : RuleManager) (i : ℕ) {s : String}
    → i < length m.top.rules
    → name_of m i ≡ some s
    → valid_rule (set_rule m i none) i ≡ ok false
unfolding valid_rule valid_in name_of
pruned-valid m i h e = rw e (rw (get_elem?-set_self m.top.rules i none h))

pruned-ensure :
    (m : RuleManager) (s : String) (i : ℕ)
    → m.parents ≡ []
    → i < length m.top.rules
    → index_of m s ≡ some i
    → ensure_name (set_rule m i none) s
      ≡ ok (i, set_rule (set_rule m i none) i (some (new_rule false)))
unfolding ensure_name inherit_keep index_of
pruned-ensure m s i root h e =
    rw (e, ensure_name) (rw (get_elem?-set_self m.top.rules i none h) (rw (root, inherit_keep)))

-- Pruning a rule by its name leaves the maps inverse and exact: the name keeps its place, where no
-- rule is left and which is no longer valid, and rules at other places are as they were. In a
-- manager without parent a later `Ensure` of the name puts an empty rule at that place again.
pub prune_keeps_name :
    (m : RuleManager) (s : String) (i : ℕ)
    → m.parents ≡ []
    → IsNamed m
    → index_of m s ≡ some i
    → let m' = prune_name m s in
      IsNamed m'
      × (index_of m' s ≡ some i)
      × (get_rule m' i ≡ none)
      × (valid_rule_name m' s ≡ ok false)
      × ((j : ℕ) → j ≢ i → get_rule m' j ≡ get_rule m j)
      × (ensure_name m' s ≡ ok (i, set_rule m' i (some (new_rule false))))
unfolding prune_name valid_rule_name
prune_keeps_name m s i root v e =
    let inside = v.in_range s i e in
    let known : index_of (set_rule m i none) s ≡ some i = unfold index_of in e in
    rw (e, prune_name)
      (rw (prune_idx-eq m i inside) (
        set_rule-IsNamed m i none v,
        known,
        get_rule-set_self m i none inside,
        rw (known, valid_rule_name) (pruned-valid m i inside (v.to_name s i e)),
        λ j h. get_rule-set_ne m i j none h,
        pruned-ensure m s i root inside e,
      ))
