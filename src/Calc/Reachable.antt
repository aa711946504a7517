-- ===== src/Calc/Reachable.antt =====
-- What `Or::CalcReachability` stores in `choice_indices_` (ws/libresmack/src/items/or.cpp), from which
-- `Or::Build` later takes the index of an item.
use resmack.Prelude.{
  ℕ, suc, ◌+◌, ◌≤◌, ◌<◌, ◌≡◌, ap, ◌∙◌, sym, subst, dec_lt, get_elem?_above, Bool, true, false, List,
  [], ◌∷◌, Option, some, none, if◌then◌else◌, length, arith, All, ◌||◌, ltb,
}
use resmack.Prelude.Outcome.{Fault, ok, or_fail, >>=-eq-ok}
use resmack.Item.{Items, nil, cons, num_items}
use resmack.Item.Rule.{Rule}
use resmack.Item.Choose.{InRange}
use resmack.Manager.{RuleManager, get_rule, set_rule}
use resmack.Manager.Names.{get_rule-set_self}
use resmack.Calc.Reach.{Walk, calc_item, calc_alternatives, calc_rule}

ok_inj {ℓ} : {A : Type ℓ} {a b : A} → ok a ≡ ok b → a ≡ b
ok_inj e = cc

-- Indices from `idx` on, below `end`.
abbrev Between : ℕ → ℕ → List ℕ → Type 0
Between idx end = All (λ (i : ℕ). (idx ≤ i) × (i < end))

Between-widen : (idx end : ℕ) (l : List ℕ) → Between (suc idx) end l → Between idx end l
Between-widen idx end [] a = tt
Between-widen idx end (i ∷ l) a = ((omega (arith, a.0.0), a.0.1), Between-widen idx end l a.1)

Between-keep :
    (b : Bool) (idx end : ℕ) (l : List ℕ)
    → idx < end
    → Between (suc idx) end l
    → Between idx end (if b then idx ∷ l else l)
Between-keep true idx end l h a = ((omega arith, h), Between-widen idx end l a)
Between-keep false idx end l h a = Between-widen idx end l a

calc_alternatives-Between :
    (xs : Items) (idx end : ℕ) (w : Walk) (found : List ℕ) (xs' : Items) (w' : Walk)
    → end ≡ idx + num_items xs
    → calc_alternatives xs idx w ≡ ok (found, xs', w')
    → Between idx end found × (num_items xs' ≡ num_items xs)
unfolding calc_alternatives
calc_alternatives-Between nil idx end w found xs' w' q h = (
  subst (Between idx end) (ap (λ (p : List ℕ × Items × Walk). p.0) (ok_inj h)) tt,
  ap (λ (p : List ℕ × Items × Walk). num_items p.1) (sym (ok_inj h)),
)
calc_alternatives-Between (cons x xs) idx end w found xs' w' q h =
    let ((b, x', w1), e, h1) = >>=-eq-ok (calc_item x w) _ h in
    let ((f2, xs2, w2), e2, fin) = >>=-eq-ok (calc_alternatives xs (suc idx) w1) _ h1 in
    let (inside, size) =
      calc_alternatives-Between xs (suc idx) end w1 f2 xs2 w2 (omega (arith, q)) e2 in
    (
      subst (Between idx end) (ap (λ (p : List ℕ × Items × Walk). p.0) (ok_inj fin))
          (Between-keep b idx end f2 (omega (arith, q)) inside),
      ap (λ (p : List ℕ × Items × Walk). num_items p.1) (sym (ok_inj fin)) ∙ ap suc size,
    )

Between-InRange : (xs : Items) (l : List ℕ) → Between 0 (num_items xs) l → InRange xs l
Between-InRange xs [] a = tt
Between-InRange xs (i ∷ l) a = (a.0.1, Between-InRange xs l a.1)

or_fail-ok {ℓ} : {A : Type ℓ} (o : Option A) (e : Fault) {a : A} → or_fail o e ≡ ok a → o ≡ some a
or_fail-ok none e h = cc
or_fail-ok (some a) e h = ap some (ok_inj h)

get_rule-lt : (m : RuleManager) (i : ℕ) {r : Rule} → get_rule m i ≡ some r → i < length m.top.rules
unfolding get_rule
get_rule-lt m i {r} e = elim (dec_lt i (length m.top.rules)) [
  | yes h ↦ h
  | no h ↦ ground (arith, get_elem?_above m.top.rules i, e)
]

-- Where `CalcItem` of the rule in slot i returns, what it leaves in the slot: the rule's choices are indices of its items, of which
-- there are as many as before; it counts as reachable if it is kept or has a choice.
pub calc_rule-InRange :
    (i : ℕ) (rule : Rule) (w : Walk) (b : Bool) (w' : Walk)
    → calc_rule i rule w ≡ ok (b, w')
    → (now : Rule) × (get_rule w'.man i ≡ some now)
      × InRange now.items now.choices.choice_indices
      × (num_items now.items ≡ num_items rule.items)
      × (b ≡ (now.choices.keep || ltb 0 (length now.choices.choice_indices)))
unfolding calc_rule
calc_rule-InRange i rule w b w' h =
    let ((found, xs, w1), e, h1) = >>=-eq-ok (calc_alternatives rule.items 0 w) _ h in
    let (old, e2, fin) = >>=-eq-ok (or_fail (get_rule w1.man i) Fault.null_deref) _ h1 in
    let (inside, size) =
      calc_alternatives-Between rule.items 0 (num_items rule.items) w found xs w1 (omega arith) e in
    let now : Rule = record {
      items = xs;
      choices = record (old.choices) { choice_indices = found };
    } in
    let slot : get_rule (set_rule w1.man i (some now)) i ≡ some now =
      get_rule-set_self w1.man i (some now)
        (get_rule-lt w1.man i (or_fail-ok (get_rule w1.man i) Fault.null_deref e2)) in
    (
      now,
      ap (λ (p : Bool × Walk). get_rule p.1.man i) (sym (ok_inj fin)) ∙ slot,
      Between-InRange xs found (rw size inside),
      size,
      ap (λ (p : Bool × Walk). p.0) (sym (ok_inj fin)),
    )
