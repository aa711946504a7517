-- ===== src/Calc/Shortest.antt =====
-- What `Or::CalcRefDepth` stores in `shortest_indices_`: positions in `choice_indices_`, which
-- `Or::Build` then reads as indices of items.
use resmack.Prelude.{ℕ, suc, ◌≤◌, ◌≡◌, true, false, List, [], ◌∷◌, some, get_elem?, le→leb, ==_refl}
use resmack.Prelude.Outcome.{Outcome, ok}
use resmack.Rand.{Rand}
use resmack.Item.{Item, Items, Choices, cons}
use resmack.Item.Rule.{choose, pick_index}
use resmack.Calc.Depth.{
  MapOrder, inf_depth, weigh, shortest_len, positions, keys_at, set_item, put_back, or_depth,
}

-- The order in which a hash map hands out its entries neither adds nor drops one; of a map with one
-- entry, then, there is one order.
abbrev pub IsSingletonOrder : MapOrder → Type 0
IsSingletonOrder order = (e : ℕ × ℕ) → order (e ∷ []) ≡ e ∷ []

-- A rule that is not kept and has one reachable alternative, at an index above 0. The analysis of
-- depths gives the depth of that alternative and leaves it the only choice; but when the shortest way
-- is asked for, the item that is built is the one at index 0, which is not reachable.
pub shortest_builds_unreachable :
    (order : MapOrder) (x0 : Item) (rest : Items) (c : Choices) (i d : ℕ) (item : Item)
    (outcomes : List (Outcome (ℕ × Item))) (r : Rand)
    → IsSingletonOrder order
    → c.keep ≡ false
    → c.choice_indices ≡ suc i ∷ []
    → get_elem? outcomes (suc i) ≡ some (ok (d, item))
    → d ≤ inf_depth
    → (xs : Items) × (c' : Choices) × (or_depth order (cons x0 rest) c outcomes ≡ ok (d, xs, c'))
      × (c'.choice_indices ≡ suc i ∷ [])
      × (choose true xs c' r ≡ ok (x0, r))
unfolding or_depth weigh shortest_len positions put_back set_item keys_at choose pick_index
shortest_builds_unreachable order x0 rest c i d item outcomes r single free one at small = (
  cons x0 (set_item rest i item),
  record c { shortest_indices = 0 ∷ [] },
  simp (free, one) (rw at (rw (le→leb d inf_depth small) (rw (single (0, d)) (rw (==_refl d))))),
  one,
  simp free,
)
