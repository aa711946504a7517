-- ===== src/Build/Ranked.antt =====
-- Grammars whose references form no cycle: a rank for each rule that bounds the depth of what it
-- builds, and that building changes the rules (ws/libresmack/src/items/) within their ranks.
use resmack.Prelude.{
  ℕ, zero, suc, ◌+◌, ◌≤◌, ◌≡◌, refl, ap, subst, Bool, List, [], ◌∷◌, Option, none, some, length,
  get_elem?, set, arith, ◌⊎◌, inl, inr, ◌==◌, ◌%◌,
}
use resmack.Prelude.Outcome.{Fault, ok, fail, or_fail, ◌>>=◌}
use resmack.Rand.{Rand, next}
use resmack.Item.{
  Item, Items, Choices, raw, str, int, alt, seq, ref, opt, id, scope, scope_action, pre, post,
  capture, captured, flush, flushed, store, nil, cons, num_items, item_at, push_item,
}
use resmack.Item.Rule.{Rule, choose, pick_index, choice_list}
use resmack.Build.Safe.{Safe, Any, Safe-bind, Safe-if, Safe-or_fail}

-- The fuel that an item needs beside one, by the ranks of the rules that it refers to.
unfoldable mutual
  pub inner : (ℕ → ℕ) → Item → ℕ
  inner rank (raw d) = 0
  inner rank (str min range charset) = 0
  inner rank (int min range) = 0
  inner rank (alt xs c) = total rank xs
  inner rank (seq xs sep) = total rank xs
  inner rank (ref rule_name rule_idx scoped) = rank rule_idx
  inner rank (opt x) = suc (inner rank x)
  inner rank (id rule_name rule_idx) = 0
  inner rank (scope x) = suc (inner rank x)
  inner rank (scope_action push) = 0
  inner rank (pre x) = suc (inner rank x)
  inner rank (post x) = suc (inner rank x)
  inner rank (capture x) = suc (inner rank x)
  inner rank captured = 0
  inner rank flush = 0
  inner rank (flushed x) = suc (inner rank x)
  inner rank (store x rule_name rule_idx clobber invisible) = suc (inner rank x)

  pub total : (ℕ → ℕ) → Items → ℕ
  total rank nil = 0
  total rank (cons x xs) = suc (inner rank x) + total rank xs

-- No scopes, in which the rules would be analysed anew, and nothing that is built later.
unfoldable mutual
  pub Plain : Item → Type 0
  Plain (raw d) = Unit
  Plain (str min range charset) = Unit
  Plain (int min range) = Unit
  Plain (alt xs c) = AllPlain xs
  Plain (seq xs sep) = AllPlain xs
  Plain (ref rule_name rule_idx scoped) = Unit
  Plain (opt x) = Plain x
  Plain (id rule_name rule_idx) = Unit
  Plain (scope x) = ⊥
  Plain (scope_action push) = ⊥
  Plain (pre x) = Plain x
  Plain (post x) = ⊥
  Plain (capture x) = Plain x
  Plain captured = Unit
  Plain flush = Unit
  Plain (flushed x) = Plain x
  Plain (store x rule_name rule_idx clobber invisible) = Plain x

  pub AllPlain : Items → Type 0
  AllPlain nil = Unit
  AllPlain (cons x xs) = Plain x × AllPlain xs

pub some_inj {ℓ} : {A : Type ℓ} {a b : A} → some a ≡ some b → a ≡ b
some_inj h = cc

module _ (rank : ℕ → ℕ) where
  -- Each of the items is built with this fuel.
  abbrev pub Fit : ℕ → Items → Type 0
  Fit n nil = Unit
  Fit n (cons x xs) = Plain x × (suc (inner rank x) ≤ n) × Fit n xs

  pub Fit-more : (n m : ℕ) (xs : Items) → n ≤ m → Fit n xs → Fit m xs
  Fit-more n m nil h f = tt
  Fit-more n m (cons x xs) h f = (f.0, omega (arith, f.1, h), Fit-more n m xs h f.2)

  pub total-Fit : (xs : Items) → AllPlain xs → Fit (total rank xs) xs
  unfolding total AllPlain
  total-Fit nil p = tt
  total-Fit (cons x xs) p = (
    p.0,
    omega arith,
    Fit-more (total rank xs) (suc (inner rank x) + total rank xs) xs (omega arith)
        (total-Fit xs p.1),
  )

  pub Fit-at :
      (n : ℕ) (xs : Items) (i : ℕ) {x : Item}
      → Fit n xs
      → item_at xs i ≡ some x
      → Plain x × (suc (inner rank x) ≤ n)
  Fit-at n nil i f e = cc
  Fit-at n (cons y xs) zero {x} f e =
      subst (λ z. Plain z × (suc (inner rank z) ≤ n)) (some_inj e) (f.0, f.1)
  Fit-at n (cons y xs) (suc i) f e = Fit-at n xs i f.2 e

  pub Fit-push : (n : ℕ) (xs : Items) (s : List ℕ) → 1 ≤ n → Fit n xs → Fit n (push_item xs (raw s))
  unfolding inner Plain
  Fit-push n nil s h f = (tt, h, tt)
  Fit-push n (cons x xs) s h f = (f.0, f.1, Fit-push n xs s h f.2)

  abbrev pub rule_at : List (Option Rule) → ℕ → Option Rule
  rule_at rules i = elim (get_elem? rules i) [ none ↦ none | some r ↦ r ]

  -- Each rule is built within its rank.
  abbrev pub AllFit : List (Option Rule) → Type 0
  AllFit rules = (i : ℕ) (r : Rule) → rule_at rules i ≡ some r → Fit (rank i) r.items

  set_cases :
      (rules : List (Option Rule)) (i j : ℕ) (r' r : Rule)
      → rule_at (set rules i (some r')) j ≡ some r
      → ((i ≡ j) × (r' ≡ r)) ⊎ (rule_at rules j ≡ some r)
  set_cases [] i j r' r e = inr e
  set_cases (x ∷ rules) zero zero r' r e = inl (refl, some_inj e)
  set_cases (x ∷ rules) zero (suc j) r' r e = inr e
  set_cases (x ∷ rules) (suc i) zero r' r e = inr e
  set_cases (x ∷ rules) (suc i) (suc j) r' r e = elim (set_cases rules i j r' r e) [
    | inl here ↦ inl (ap suc here.0, here.1)
    | inr there ↦ inr there
  ]

  pub set-AllFit :
      (rules : List (Option Rule)) (i : ℕ) (r' : Rule)
      → AllFit rules
      → Fit (rank i) r'.items
      → AllFit (set rules i (some r'))
  set-AllFit rules i r' a f j r e = elim (set_cases rules i j r' r e) [
    | inl here ↦
        subst (λ k. Fit (rank k) r.items) here.0
          (subst (λ (q : Rule). Fit (rank i) q.items) here.1 f)
    | inr there ↦ a j r there
  ]

  -- The choice of an `Or` gives one of its items.
  pub choose-Safe :
      (n : ℕ) (do_shortest : Bool) (xs : Items) (c : Choices) (r : Rand)
      → Fit n xs
      → Safe
          (λ (p : Item × Rand). Plain p.0 × (suc (inner rank p.0) ≤ n))
          (choose do_shortest xs c r)
  unfolding choose pick_index
  choose-Safe n do_shortest xs c r f =
      let P : Item × Rand → Type 0 = λ p. Plain p.0 × (suc (inner rank p.0) ≤ n) in
      let list = choice_list do_shortest c in
      let take_at : (i : ℕ) (r1 : Rand)
          → Safe P (or_fail (item_at xs i) Fault.out_of_range >>= λ x. ok (x, r1)) =
        λ i r1.
          Safe-bind (λ (x : Item). item_at xs i ≡ some x) P
            (or_fail (item_at xs i) Fault.out_of_range) _
            (Safe-or_fail (item_at xs i) Fault.out_of_range tt) (λ x e. Fit-at n xs i f e) in
      let picked : (k : ℕ) (r1 : Rand)
          → Safe (Any {A = ℕ × Rand})
              (or_fail (get_elem? list k) Fault.out_of_range >>= λ i. ok (i, r1)) =
        λ k r1.
          Safe-bind (λ (i : ℕ). get_elem? list k ≡ some i) Any
            (or_fail (get_elem? list k) Fault.out_of_range) _
            (Safe-or_fail (get_elem? list k) Fault.out_of_range tt) (λ i e. tt) in
      Safe-if P c.keep _ _
        (Safe-if P (num_items xs == 0) (fail Fault.div_by_zero) _ tt
          (take_at ((next r).0 % num_items xs) (next r).1))
        (Safe-bind Any P _ _
          (Safe-if Any (length list == 1) _ _ (picked 0 r) (
            Safe-if Any (length list == 0) (fail Fault.div_by_zero) _ tt
              (picked ((next r).0 % length list) (next r).1)))
          (λ p u. take_at p.0 p.1))
