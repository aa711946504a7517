-- ===== src/Calc/Depth.antt =====
-- How deep the references of a rule go at least: ws/libresmack/src/calc/ref_depth.cpp,
-- calc/ref_depth.hpp and the `CalcRefDepth` methods of src/items/.
use Prim.Native.String.{String}
use resmack.Prelude.{
  ℕ, zero, suc, ◌+◌, ◌-◌, ◌^◌, Bool, true, false, not, ◌&&◌, ◌||◌, List, [], ◌∷◌, ◌++◌, Option,
  none, some, ltb, leb, ◌==◌, if◌then◌else◌, length, get_elem?,
}
use resmack.Prelude.Outcome.{Outcome, ok, fail, or_fail, Fault, ◌>>=◌}
use resmack.Item.{
  Item, Items, Choices, raw, str, int, alt, seq, ref, opt, id, scope, scope_action, pre, post,
  capture, captured, flush, flushed, store, nil, cons,
}
use resmack.Item.Rule.{Rule, num_shortest_items}
use resmack.Manager.{RuleManager, index_of, get_rule, set_rule, prune_idx}

-- `RefDepth::INF_DEPTH`.
abbrev pub inf_depth : ℕ
inf_depth = 2 ^ 64 - 1

-- The order in which a std::unordered_map hands out its entries, which no standard fixes.
abbrev pub MapOrder : Type 0
MapOrder = List (ℕ × ℕ) → List (ℕ × ℕ)

abbrev pub lookup_depth : ℕ → List (ℕ × ℕ) → Option ℕ
lookup_depth k [] = none
lookup_depth k ((j, v) ∷ m) = if j == k then some v else lookup_depth k m

-- `DepthOf`.
unfoldable pub depth_of : RuleManager → List (ℕ × ℕ) → String → ℕ
depth_of m depths rule_name = elim (index_of m rule_name) [
  | none ↦ inf_depth
  | some i ↦ (elim (lookup_depth i depths) [ none ↦ inf_depth | some d ↦ d ])
]

-- The choice of an `Or` with the depth of its item and the item as it is afterwards.
pub record Weighed : Type 0 where
  pub place : ℕ
  pub depth : ℕ
  pub item : Item

-- The first loop of `Or::CalcRefDepth`: the items that `choice_indices_` names, in its order.
-- `outcomes` has what the call on each item would give.
unfoldable pub weigh : List (Outcome (ℕ × Item)) → List ℕ → Outcome (List Weighed)
weigh outcomes [] = ok []
weigh outcomes (c ∷ cs) = or_fail (get_elem? outcomes c) Fault.out_of_range >>= λ o. o >>= λ p.
    weigh outcomes cs >>= λ rest. ok (record { place = c; depth = p.0; item = p.1 } ∷ rest)

-- `shortest_len`.
unfoldable pub shortest_len : ℕ → List Weighed → ℕ
shortest_len best [] = best
shortest_len best (x ∷ rest) = shortest_len (if leb x.depth best then x.depth else best) rest

-- The map `depths`: its keys are positions in `choice_indices_`.
unfoldable pub positions : ℕ → List Weighed → List (ℕ × ℕ)
positions idx [] = []
positions idx (x ∷ rest) = (idx, x.depth) ∷ positions (suc idx) rest

-- The second loop: the keys at which the map holds `best`.
unfoldable pub keys_at : ℕ → List (ℕ × ℕ) → List ℕ
keys_at best [] = []
keys_at best ((k, d) ∷ rest) = if d == best then k ∷ keys_at best rest else keys_at best rest

unfoldable pub set_item : Items → ℕ → Item → Items
set_item nil i y = nil
set_item (cons x xs) zero y = cons y xs
set_item (cons x xs) (suc i) y = cons x (set_item xs i y)

unfoldable pub put_back : Items → List Weighed → Items
put_back xs [] = xs
put_back xs (x ∷ rest) = put_back (set_item xs x.place x.item) rest

-- `Or::CalcRefDepth`, given what the calls on the items would give.
unfoldable pub or_depth :
    MapOrder → Items → Choices → List (Outcome (ℕ × Item)) → Outcome (ℕ × Items × Choices)
or_depth order xs c outcomes =
    if c.keep
    then ok (0, xs, c)
    else (weigh outcomes c.choice_indices >>= λ ws.
        let best = shortest_len inf_depth ws in
        ok (
          best,
          put_back xs ws,
          record c { shortest_indices = keys_at best (order (positions 0 ws)) },
        ))

abbrev deeper : (Item → Item) → Outcome (ℕ × Item) → Outcome (ℕ × Item)
deeper f o = o >>= λ p. ok (p.0, f p.1)

unfoldable mutual
  pub depth_item : MapOrder → (String → ℕ) → Item → Outcome (ℕ × Item)
  depth_item order of (raw d) = ok (0, raw d)
  depth_item order of (str min range charset) = ok (0, str min range charset)
  depth_item order of (int min range) = ok (0, int min range)
  depth_item order of (alt xs c) = or_depth order xs c (depth_each order of xs) >>= λ p.
      let (d, xs', c') = p in ok (d, alt xs' c')
  depth_item order of (seq xs sep) = depth_all order of xs >>= λ p. ok (p.0, seq p.1 sep)
  depth_item order of (ref rule_name rule_idx scoped) =
      let res = of rule_name in
      ok (if res == inf_depth then res else res + 1, ref rule_name rule_idx scoped)
  depth_item order of (opt x) = depth_item order of x >>= λ p. ok (0, opt p.1)
  depth_item order of (id rule_name rule_idx) = ok (0, id rule_name rule_idx)
  depth_item order of (scope x) = deeper scope (depth_item order of x)
  depth_item order of (scope_action push) = ok (0, scope_action push)
  depth_item order of (pre x) = deeper pre (depth_item order of x)
  depth_item order of (post x) = deeper post (depth_item order of x)
  depth_item order of (capture x) = deeper capture (depth_item order of x)
  depth_item order of captured = ok (0, captured)
  depth_item order of flush = ok (0, flush)
  depth_item order of (flushed x) = deeper flushed (depth_item order of x)
  depth_item order of (store x rule_name rule_idx clobber invisible) =
      deeper (λ x'. store x' rule_name rule_idx clobber invisible) (depth_item order of x)

  -- What the call on each item would give; `Or` makes those of its choices.
  pub depth_each : MapOrder → (String → ℕ) → Items → List (Outcome (ℕ × Item))
  depth_each order of nil = []
  depth_each order of (cons x xs) = depth_item order of x ∷ depth_each order of xs

  -- The loop of `And`: the greatest depth.
  pub depth_all : MapOrder → (String → ℕ) → Items → Outcome (ℕ × Items)
  depth_all order of nil = ok (0, nil)
  depth_all order of (cons x xs) = depth_item order of x >>= λ p.
      depth_all order of xs >>= λ q. ok (if ltb q.0 p.0 then p.0 else q.0, cons p.1 q.1)

-- What `RefDepth` keeps from one `Calc` to the next.
pub record RefDepth : Type 0 where
  pub depths : List (ℕ × ℕ)
  pub num_changes : ℕ

pub record Sweep : Type 0 where
  pub man : RuleManager
  pub depths : List (ℕ × ℕ)
  pub num_changes : ℕ
  pub to_prune : List ℕ
  pub changed : Bool

-- One rule in a sweep of the `for` loop.
unfoldable pub sweep_rule : MapOrder → ℕ → Rule → Sweep → Outcome Sweep
sweep_rule order i rule s =
    let before = num_shortest_items rule in
    let of = depth_of s.man s.depths in
    or_depth order rule.items rule.choices (depth_each order of rule.items) >>= λ p.
    let (depth, xs, c) = p in
    let moved : Bool = elim (lookup_depth i s.depths) [ none ↦ true | some d ↦ not (d == depth) ] in
    let changed = s.changed || moved || not (before == length c.shortest_indices) in
    let cut = not changed && depth == inf_depth && not c.keep in
    ok (record {
      man = set_rule s.man i (some (record { items = xs; choices = c }));
      depths = (i, depth) ∷ s.depths;
      num_changes = if cut then s.num_changes + 1 else s.num_changes;
      to_prune = if cut then s.to_prune ++ i ∷ [] else s.to_prune;
      changed = changed;
    })

-- The `for` loop, with the rules from `i` on still to visit.
unfoldable pub sweep : MapOrder → ℕ → ℕ → Sweep → Outcome Sweep
sweep order zero i s = ok s
sweep order (suc left) i s =
    elim (get_rule s.man i) [ none ↦ ok s | some rule ↦ sweep_rule order i rule s ]
    >>= sweep order left (suc i)

-- The `do ... while (changed)` loop.
unfoldable pub sweep_loop : MapOrder → ℕ → Sweep → Outcome Sweep
sweep_loop order zero s = fail Fault.no_fuel
sweep_loop order (suc fuel) s =
    sweep order (length s.man.top.rules) 0 (record s { changed = false; to_prune = [] }) >>= λ s'.
    elim s'.changed [ true ↦ sweep_loop order fuel s' | false ↦ ok s' ]

unfoldable pub prune_all : RuleManager → List ℕ → RuleManager
prune_all m [] = m
prune_all m (i ∷ rest) = prune_all (prune_idx m i) rest

-- `RefDepth::Calc`.
unfoldable pub ref_depth_calc :
    MapOrder → ℕ → RuleManager → RefDepth → Outcome (RuleManager × RefDepth)
ref_depth_calc order fuel m d =
    sweep_loop order fuel
      (record { man = m; depths = d.depths; num_changes = 0; to_prune = []; changed = false })
    >>= λ s.
        ok (prune_all s.man s.to_prune, record { depths = s.depths; num_changes = s.num_changes })
