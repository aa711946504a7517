-- ===== src/Manager.antt =====
-- The table of rules and its scopes: ws/libresmack/src/rule_man.cpp and include/resmack/rule_man.hpp,
-- with the constructor and `NewChild` of src/rules.cpp. The two maps are shared by a manager and all
-- its children, each has its own vector `rules_`, and a null pointer there is `none`. A `Rules`
-- object and its `RuleManager` are one `Frame`. A rule is named by its place where the code has a
-- pointer to it.
pub mod Names
pub mod Tables
pub mod Scopes
pub mod AnyRule
mod Tests
use Prim.Native.String.{String}
use text.Mathlib.Text.{◌==◌ as str_eq}
use resmack.Prelude.{
  ℕ, zero, suc, ◌+◌, ◌%◌, Bool, true, false, ◌&&◌, not, List, [], ◌∷◌, ◌++◌, Option, none, some,
  leb, ◌==◌, if◌then◌else◌, length, get_elem?, set, replicate,
}
use resmack.Prelude.Outcome.{Outcome, ok, fail, or_fail, Fault, ◌>>=◌}
use resmack.Rand.{Rand, next}
use resmack.Item.Rule.{Rule, new_rule, set_keep, should_keep, clear_items}

-- `rule_idx_to_name_` and `rule_name_to_idx_`, newest entry first.
pub record NameMaps : Type 0 where
  pub idx_to_name : List (ℕ × String)
  pub name_to_idx : List (String × ℕ)

pub record Frame : Type 0 where
  pub finalized : Bool
  pub rules : List (Option Rule)

-- A manager with the managers that it descends from, its parent first.
pub record RuleManager : Type 0 where
  pub names : NameMaps
  pub top : Frame
  pub parents : List Frame

abbrev pub lookup_name : String → List (String × ℕ) → Option ℕ
lookup_name k [] = none
lookup_name k ((j, v) ∷ m) = if str_eq j k then some v else lookup_name k m

abbrev pub lookup_idx : ℕ → List (ℕ × String) → Option String
lookup_idx k [] = none
lookup_idx k ((j, v) ∷ m) = if j == k then some v else lookup_idx k m

-- `RuleManager()` with `Init`.
unfoldable pub init : RuleManager
init = record {
  names = record { idx_to_name = []; name_to_idx = [] };
  top = record { finalized = false; rules = [] };
  parents = [];
}

-- `NewChild`: `SetParent` shares the maps and gives the child a null pointer for each rule.
unfoldable pub new_child : RuleManager → RuleManager
new_child m = record {
  names = m.names;
  top = record { finalized = false; rules = replicate (length m.top.rules) none };
  parents = m.top ∷ m.parents;
}

unfoldable pub index_of : RuleManager → String → Option ℕ
index_of m rule_name = lookup_name rule_name m.names.name_to_idx

unfoldable pub name_of : RuleManager → ℕ → Option String
name_of m rule_idx = lookup_idx rule_idx m.names.idx_to_name

abbrev pub is_some {ℓ} : {A : Type ℓ} → Option A → Bool
is_some none = false
is_some (some a) = true

unfoldable pub index_exists : RuleManager → ℕ → Bool
index_exists m rule_idx = is_some (name_of m rule_idx)

unfoldable pub name_exists : RuleManager → String → Bool
name_exists m rule_name = is_some (index_of m rule_name)

-- `rules_[rule_idx] != NULL` behind the test of the shared map: the read is not checked.
unfoldable pub valid_in : NameMaps → Frame → ℕ → Outcome Bool
valid_in names frame rule_idx =
    if is_some (lookup_idx rule_idx names.idx_to_name)
    then (or_fail (get_elem? frame.rules rule_idx) Fault.out_of_range >>= λ r. ok (is_some r))
    else ok false

unfoldable pub valid_rule : RuleManager → ℕ → Outcome Bool
valid_rule m rule_idx = valid_in m.names m.top rule_idx

unfoldable pub valid_rule_name : RuleManager → String → Outcome Bool
valid_rule_name m rule_name = elim (index_of m rule_name) [
  | none ↦ ok false
  | some rule_idx ↦ valid_rule m rule_idx
]

-- `GetRule`, with NULL for an index that is out of range.
abbrev pub rule_in : Frame → ℕ → Option Rule
rule_in frame rule_idx = elim (get_elem? frame.rules rule_idx) [ none ↦ none | some r ↦ r ]

unfoldable pub get_rule : RuleManager → ℕ → Option Rule
get_rule m rule_idx = rule_in m.top rule_idx

unfoldable pub get_rule_name : RuleManager → String → Option Rule
get_rule_name m rule_name = elim (index_of m rule_name) [
  | none ↦ none
  | some rule_idx ↦ get_rule m rule_idx
]

-- The rule in the outermost manager.
unfoldable pub root_of : Frame → List Frame → Frame
root_of frame [] = frame
root_of frame (p ∷ ps) = root_of p ps

unfoldable pub get_root_rule : RuleManager → ℕ → Option Rule
get_root_rule m rule_idx = rule_in (root_of m.top m.parents) rule_idx

unfoldable pub first_rule : List Frame → ℕ → Option Rule
first_rule [] rule_idx = none
first_rule (f ∷ fs) rule_idx =
    let rest = first_rule fs rule_idx in elim (rule_in f rule_idx) [ none ↦ rest | some r ↦ some r ]

unfoldable pub get_unshadowed_rule : RuleManager → ℕ → Option Rule
get_unshadowed_rule m rule_idx = first_rule (m.top ∷ m.parents) rule_idx

-- The managers of the chain in which the rule is valid.
unfoldable pub options : NameMaps → List Frame → ℕ → Outcome (List Frame)
options names [] rule_idx = ok []
options names (f ∷ fs) rule_idx = valid_in names f rule_idx >>= λ valid.
    options names fs rule_idx >>= λ rest. ok (if valid then f ∷ rest else rest)

unfoldable pub get_any_rule : RuleManager → ℕ → Rand → Outcome (Option Rule × Rand)
get_any_rule m rule_idx r = elim m.parents [
  | [] ↦ ok (get_rule m rule_idx, r)
  | p ∷ ps ↦ options m.names (m.top ∷ p ∷ ps) rule_idx >>= λ found.
      let (v, r') = next r in
      if length found == 0
      then fail Fault.div_by_zero
      else (or_fail (get_elem? found (v % length found)) Fault.out_of_range >>= λ f.
          ok (rule_in f rule_idx, r'))
]

abbrev pub set_rule : RuleManager → ℕ → Option Rule → RuleManager
set_rule m rule_idx r = record m { top = record (m.top) { rules = set m.top.rules rule_idx r } }

-- `res->SetKeep(this->GetRootRule(rule_idx)->ShouldKeep())` for a manager with a parent.
unfoldable pub inherit_keep : RuleManager → ℕ → Rule → Outcome Rule
inherit_keep m rule_idx rule = elim m.parents [
  | [] ↦ ok rule
  | p ∷ ps ↦ or_fail (get_root_rule m rule_idx) Fault.null_deref >>= λ root.
      ok (set_keep rule (should_keep root))
]

-- `Ensure` by name. The result is the rule's place.
unfoldable pub ensure_name : RuleManager → String → Outcome (ℕ × RuleManager)
ensure_name m rule_name = elim (index_of m rule_name) [
  | some rule_idx ↦ or_fail (get_elem? m.top.rules rule_idx) Fault.out_of_range >>= λ old.
      let rule : Rule = elim old [ none ↦ new_rule false | some r ↦ r ] in
      inherit_keep (set_rule m rule_idx (some rule)) rule_idx rule >>= λ rule'.
      ok (rule_idx, set_rule m rule_idx (some rule'))
  | none ↦
      let rule_idx : ℕ = length m.top.rules in
      ok (
        rule_idx,
        record {
          names = record {
            idx_to_name = (rule_idx, rule_name) ∷ m.names.idx_to_name;
            name_to_idx = (rule_name, rule_idx) ∷ m.names.name_to_idx;
          };
          top = record (m.top) { rules = m.top.rules ++ some (new_rule false) ∷ [] };
          parents = m.parents;
        },
      )
]

-- `Ensure` by index; the write `rules_[rule_idx] = res` is not checked.
unfoldable pub ensure_idx : RuleManager → ℕ → Outcome RuleManager
ensure_idx m rule_idx = elim (get_rule m rule_idx) [
  | some rule ↦ ok m
  | none ↦ or_fail (get_elem? m.top.rules rule_idx) Fault.out_of_range >>= λ old.
      inherit_keep (set_rule m rule_idx (some (new_rule false))) rule_idx (new_rule false)
      >>= λ rule. ok (set_rule m rule_idx (some rule))
]

unfoldable pub prune_idx : RuleManager → ℕ → RuleManager
prune_idx m rule_idx = if leb (length m.top.rules) rule_idx then m else set_rule m rule_idx none

unfoldable pub prune_name : RuleManager → String → RuleManager
prune_name m rule_name = elim (index_of m rule_name) [
  | none ↦ m
  | some rule_idx ↦ prune_idx m rule_idx
]

unfoldable pub clear_rule_values : RuleManager → ℕ → RuleManager
clear_rule_values m rule_idx =
    if leb (length m.top.rules) rule_idx then m else elim (get_rule m rule_idx) [
      | none ↦ m
      | some rule ↦ set_rule m rule_idx (some (clear_items rule))
    ]
