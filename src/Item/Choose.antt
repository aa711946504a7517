-- ===== src/Item/Choose.antt =====
-- `Or::Build`: which item is built, on every branch.
use resmack.Prelude.{
  ℕ, zero, suc, ◌%◌, ◌<◌, ◌≡◌, refl, ◌∙◌, ◌⊎◌, inl, inr, Bool, true, false, List, some, ◌==◌,
  if◌then◌else◌, length, get_elem?, arith, All, All_get, Bool-cases, get_elem?_below, ne→==_false,
  ap, sym, [], lt→ltb,
}
use native.Mathlib.Nat.{mod-lt}
use resmack.Prelude.Outcome.{Outcome, ok, fail, or_fail, Fault, ◌>>=◌}
use resmack.Rand.{Rand, next}
use resmack.Item.{Item, Items, Choices, nil, cons, num_items, item_at}
use resmack.Item.Rule.{choose, pick_index, choice_list}

item_at_below : (xs : Items) (i : ℕ) → i < num_items xs → (x : Item) × (item_at xs i ≡ some x)
item_at_below nil i h = elim h [ ]
item_at_below (cons x xs) zero h = (x, refl)
item_at_below (cons x xs) (suc i) h = item_at_below xs i (omega arith)

-- The indices point to items.
abbrev pub InRange : Items → List ℕ → Type 0
InRange xs = All (λ (i : ℕ). i < num_items xs)

-- The generator after a choice: with one candidate no number is drawn.
abbrev pub drawn : ℕ → Rand → Rand
drawn n r = if n == 1 then r else (next r).1

pick_index_lem :
    (l : List ℕ) (r : Rand)
    → 0 < length l
    → (k : ℕ) × (i : ℕ) × (get_elem? l k ≡ some i) × (pick_index l r ≡ ok (i, drawn (length l) r))
unfolding pick_index
pick_index_lem l r h = elim (Bool-cases (length l == 1)) [
  | inl one ↦ let (i, e) = get_elem?_below l 0 h in (0, i, e, rw one (rw e))
  | inr more ↦
      let k = (next r).0 % length l in
      let (i, e) = get_elem?_below l k (mod-lt _ h) in
      (k, i, e, rw more (rw (ne→==_false (length l) 0 (omega arith)) (rw e)))
]

pick_index_empty : (l : List ℕ) (r : Rand) → length l ≡ 0 → pick_index l r ≡ fail Fault.div_by_zero
unfolding pick_index
pick_index_empty l r e = rw e

-- What is done with the index that was picked.
abbrev fetch : Items → Outcome (ℕ × Rand) → Outcome (Item × Rand)
fetch xs o = o >>= λ p. or_fail (item_at xs p.0) Fault.out_of_range >>= λ item. ok (item, p.1)

choose_free :
    (do_shortest : Bool) (xs : Items) (c : Choices) (r : Rand)
    → c.keep ≡ false
    → choose do_shortest xs c r ≡ fetch xs (pick_index (choice_list do_shortest c) r)
unfolding choose
choose_free do_shortest xs c r e = simp e

fetch-some :
    (xs : Items) (i : ℕ) {x : Item} (r : Rand)
    → item_at xs i ≡ some x
    → fetch xs (ok (i, r)) ≡ ok (x, r)
fetch-some xs i r e = rw e

-- The indices that a rule that is not kept chooses among: those of the shortest alternatives where the
-- shortest way is asked for and there are any, else those of the reachable ones.
pub data Candidates (do_shortest : Bool) (c : Choices) (l : List ℕ) : Type 0 where
  shortest :
      do_shortest ≡ true
      → 0 < length c.shortest_indices
      → l ≡ c.shortest_indices
      → Candidates do_shortest c l
  not_asked : do_shortest ≡ false → l ≡ c.choice_indices → Candidates do_shortest c l
  no_shortest : c.shortest_indices ≡ [] → l ≡ c.choice_indices → Candidates do_shortest c l

Candidates-choice_list :
    (do_shortest : Bool) (c : Choices) (l : List ℕ)
    → Candidates do_shortest c l
    → choice_list do_shortest c ≡ l
Candidates-choice_list do_shortest c l (shortest asked some_left e) =
    rw (asked, lt→ltb 0 (length c.shortest_indices) some_left) (sym e)
Candidates-choice_list do_shortest c l (not_asked e e') = rw e (sym e')
Candidates-choice_list true c l (no_shortest e e') = rw e (sym e')
Candidates-choice_list false c l (no_shortest e e') = sym e'

-- A kept rule without items, and a rule without reachable alternative, divide by zero. A kept rule
-- draws one number and builds one of its items. Any other builds an item that its candidates `l`
-- name, which are indices of items: `shortest_indices_` if the shortest way is asked for and that list
-- is not empty, else `choice_indices_`. A number is drawn unless there is one candidate.
pub choose_cases :
    (do_shortest : Bool) (xs : Items) (c : Choices) (r : Rand) (l : List ℕ)
    → Candidates do_shortest c l
    → InRange xs l
    → ((c.keep ≡ true) × (num_items xs ≡ 0) × (choose do_shortest xs c r ≡ fail Fault.div_by_zero))
      ⊎ ((c.keep ≡ false) × (length l ≡ 0) × (choose do_shortest xs c r ≡ fail Fault.div_by_zero))
      ⊎ ((c.keep ≡ true)
          × ((i : ℕ) × (x : Item) × (item_at xs i ≡ some x)
              × (choose do_shortest xs c r ≡ ok (x, (next r).1))))
      ⊎ ((c.keep ≡ false)
          × ((k : ℕ) × (i : ℕ) × (x : Item) × (get_elem? l k ≡ some i)
              × (item_at xs i ≡ some x)
              × (choose do_shortest xs c r ≡ ok (x, drawn (length l) r))))
unfolding choose
choose_cases do_shortest xs c r l which inside =
    let run_free : c.keep ≡ false → choose do_shortest xs c r ≡ fetch xs (pick_index l r) = λ free.
      choose_free do_shortest xs c r free
      ∙ ap (λ k. fetch xs (pick_index k r)) (Candidates-choice_list do_shortest c l which) in
    elim (Bool-cases (c.keep)) [
      | inl kept ↦ elim (Bool-cases (num_items xs == 0)) [
        | inl empty ↦ inl (kept, ground arith, simp (kept, empty))
        | inr some_left ↦
            let i = (next r).0 % num_items xs in
            let (x, e) = item_at_below xs i (mod-lt _ (ground arith)) in
            inr (inr (inl (kept, (i, x, e, simp (kept, some_left, e)))))
      ]
      | inr free ↦ elim (Bool-cases (length l == 0)) [
        | inl empty ↦ inr (
            inl (
              free,
              ground arith,
              run_free free ∙ ap (fetch xs) (pick_index_empty l r (ground arith)),
            ))
        | inr some_left ↦
            let (k, i, at, run) = pick_index_lem l r (ground arith) in
            let (x, e) = item_at_below xs i (All_get (λ (j : ℕ). j < num_items xs) l k inside at) in
            inr (
              inr (
                inr (
                  free,
                  (k, i, x, at, e, run_free free ∙ ap (fetch xs) run ∙ fetch-some xs i _ e),
                )))
      ]
    ]
