-- ===== src/Calc/Tests.antt =====
-- A rule with one reachable alternative, at index 1, as ws/libresmack/src/items/or.cpp leaves it.
use resmack.Prelude.{some, ◌||◌, ltb, length, ℕ, ◌≡◌, refl, [], ◌∷◌, List, false, true, arith}
use resmack.Prelude.Outcome.{Outcome, ok}
use resmack.Rand.{Rand}
use resmack.Item.{Item, Items, Choices, raw, ref, nil, cons, num_items}
use resmack.Item.Rule.{Rule, choose}
use resmack.Item.Choose.{InRange}
use resmack.Manager.{get_rule, index_of}
use resmack.Calc.Reach.{Walk, calc_rule, calc_alternatives}
use resmack.Calc.Reachable.{calc_rule-InRange}
use resmack.Calc.Depth.{or_depth}
use resmack.Calc.Shortest.{shortest_builds_unreachable}

abbrev seeded : Rand
seeded = record {
  s = record { s0 = 7; s1 = 11; s2 = 13; s3 = 17 };
  snapshots = [];
  should_record = false;
  use_last_gaussian = false;
}

abbrev second_only : Choices
second_only = record { choice_indices = 1 ∷ []; shortest_indices = []; keep = false }

abbrev missing : Item
missing = ref "missing" 0 false

abbrev word : Item
word = raw (b'a' ∷ [])

abbrev outcomes : List (Outcome (ℕ × Item))
outcomes = ok (0, missing) ∷ ok (0, word) ∷ []

shortest_builds_unreachable_example :
    (xs : Items) × (c' : Choices) × (or_depth
        (λ m. m)
        (cons missing (cons word nil))
        second_only
        outcomes
      ≡ ok (0, xs, c'))
    × (c'.choice_indices ≡ 1 ∷ [])
    × (choose true xs c' seeded ≡ ok (missing, seeded))
shortest_builds_unreachable_example =
    shortest_builds_unreachable (λ m. m) missing (cons word nil) second_only 0 0 word outcomes
      seeded (λ e. refl) refl refl refl (omega arith)

-- A raw item and a reference that nothing defines.
abbrev half_reachable : Rule
half_reachable = record {
  items = cons word (cons missing nil);
  choices = record { choice_indices = []; shortest_indices = []; keep = false };
}

abbrev walk_with : Rule → Walk
walk_with rule = record {
  man = record {
    names = record { idx_to_name = (0, "start") ∷ []; name_to_idx = ("start", 0) ∷ [] };
    top = record { finalized = false; rules = some rule ∷ [] };
    parents = [];
  };
  changes = 0;
}

abbrev first_only : Rule
first_only = record half_reachable {
  choices = record (half_reachable.choices) { choice_indices = 0 ∷ [] };
}

calc_rule_returns :
    calc_rule 0 half_reachable (walk_with half_reachable) ≡ ok (true, walk_with first_only)
unfolding calc_rule calc_alternatives get_rule index_of
calc_rule_returns = refl

calc_rule-InRange_example :
    (now : Rule) × (get_rule (walk_with first_only).man 0 ≡ some now)
    × InRange now.items now.choices.choice_indices
    × (num_items now.items ≡ 2)
    × (true ≡ (now.choices.keep || ltb 0 (length now.choices.choice_indices)))
calc_rule-InRange_example =
    calc_rule-InRange 0 half_reachable (walk_with half_reachable) true (walk_with first_only)
      calc_rule_returns
