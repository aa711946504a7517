-- ===== src/Item/Rule.antt =====
-- `Or` as the manager holds it: ws/libresmack/src/items/or.cpp, include/resmack/items/or.hpp.
use resmack.Prelude.{ℕ, ◌%◌, Bool, ◌&&◌, List, [], ◌∷◌, ltb, ◌==◌, if◌then◌else◌, length, get_elem?}
use resmack.Prelude.Outcome.{Outcome, ok, fail, or_fail, Fault, ◌>>=◌}
use resmack.Rand.{Rand, next}
use resmack.Item.{Item, Items, Choices, nil, num_items, item_at, push_item}

pub record Rule : Type 0 where
  pub items : Items
  pub choices : Choices
  pub open choices use *

-- `new Or()` and `new Or(keep)`.
abbrev pub new_rule : Bool → Rule
new_rule keep = record {
  items = nil;
  choices = record { choice_indices = []; shortest_indices = []; keep = keep };
}

abbrev pub set_keep : Rule → Bool → Rule
set_keep rule val = record rule { choices = record (rule.choices) { keep = val } }

abbrev pub should_keep : Rule → Bool
should_keep rule = rule.choices.keep

unfoldable pub add_item : Rule → Item → Rule
add_item rule item = record rule { items = push_item rule.items item }

-- `AddItems`, whose arguments end at the first null pointer.
unfoldable pub add_items : Rule → List Item → Rule
add_items rule [] = rule
add_items rule (item ∷ rest) = add_items (record rule { items = push_item rule.items item }) rest

unfoldable pub clear_items : Rule → Rule
clear_items rule = record {
  items = nil;
  choices = record (rule.choices) { choice_indices = []; shortest_indices = [] };
}

abbrev pub num_shortest_items : Rule → ℕ
num_shortest_items rule = length rule.choices.shortest_indices

-- v[rand->Next() % v.size()]; a vector with one entry takes no number.
unfoldable pub pick_index : List ℕ → Rand → Outcome (ℕ × Rand)
pick_index list r =
    if length list == 1
    then (or_fail (get_elem? list 0) Fault.out_of_range >>= λ i. ok (i, r))
    else (if length list == 0
        then fail Fault.div_by_zero
        else (let (v, r') = next r in
            or_fail (get_elem? list (v % length list)) Fault.out_of_range >>= λ i. ok (i, r')))

-- The indices among which `Or::Build` chooses when the rule is not kept.
abbrev pub choice_list : Bool → Choices → List ℕ
choice_list do_shortest c =
    if do_shortest && ltb 0 (length c.shortest_indices)
    then c.shortest_indices
    else c.choice_indices

-- The item that `Or::Build` builds.
unfoldable pub choose : Bool → Items → Choices → Rand → Outcome (Item × Rand)
choose do_shortest items c r =
    if c.keep
    then (if num_items items == 0
        then fail Fault.div_by_zero
        else (let (v, r') = next r in
            or_fail (item_at items (v % num_items items)) Fault.out_of_range >>= λ item.
            ok (item, r')))
    else (pick_index (choice_list do_shortest c) r >>= λ p.
        or_fail (item_at items p.0) Fault.out_of_range >>= λ item. ok (item, p.1))
