-- ===== src/Manager/AnyRule.antt =====
-- `GetAnyRule`: the rule that a build takes from a chain of scopes.
use resmack.Prelude.{
  ℕ, suc, ◌%◌, ◌<◌, ◌≡◌, refl, ap, ◌∙◌, ◌⊎◌, inl, inr, List, [], ◌∷◌, Option, none, some, Bool,
  true, false, ◌==◌, if◌then◌else◌, length, get_elem?, arith, get_elem?_below, All, All_get,
  List-cases, ne→==_false, Option-cases,
}
use native.Mathlib.Nat.{mod-lt}
use Prim.Native.String.{String}
use resmack.Prelude.Outcome.{Outcome, ok, fail, or_fail, Fault, ◌>>=◌}
use resmack.Rand.{Rand, next}
use resmack.Item.Rule.{Rule}
use resmack.Manager.{
  RuleManager, Frame, NameMaps, name_of, lookup_idx, is_some, get_rule, rule_in, valid_in,
  first_rule, get_unshadowed_rule, get_any_rule, options,
}
use resmack.Manager.Names.{IsNamed}
use resmack.Manager.Scopes.{first_rule-cons}

-- All managers of a chain have a slot for each rule.
abbrev pub IsLevel : RuleManager → Type 0
IsLevel m = All (λ (f : Frame). length f.rules ≡ length m.top.rules) m.parents

-- A manager of the chain that has the rule.
abbrev Has : List Frame → ℕ → Frame → Type 0
Has fs i g = (k : ℕ) × (rule : Rule) × (get_elem? fs k ≡ some g) × (rule_in g i ≡ some rule)

Has-cons : (f : Frame) (fs : List Frame) (i : ℕ) (g : Frame) → Has fs i g → Has (f ∷ fs) i g
Has-cons f fs i g (k, rule, e, d) = (suc k, rule, e, d)

All-Has-cons :
    (f : Frame) (fs : List Frame) (i : ℕ) (gs : List Frame)
    → All (Has fs i) gs
    → All (Has (f ∷ fs) i) gs
All-Has-cons f fs i [] a = tt
All-Has-cons f fs i (g ∷ gs) a = (Has-cons f fs i g a.0, All-Has-cons f fs i gs a.1)

valid_in-eq :
    (names : NameMaps) (f : Frame) (i : ℕ) {s : String}
    → lookup_idx i names.idx_to_name ≡ some s
    → i < length f.rules
    → valid_in names f i ≡ ok (is_some (rule_in f i))
unfolding valid_in
valid_in-eq names f i e h = let (x, d) = get_elem?_below f.rules i h in rw e (rw (d, rule_in))

options-step :
    (names : NameMaps) (f : Frame) (fs gs : List Frame) (i : ℕ) (b : Bool)
    → valid_in names f i ≡ ok b
    → options names fs i ≡ ok gs
    → options names (f ∷ fs) i ≡ ok (if b then f ∷ gs else gs)
unfolding options
options-step names f fs gs i b e d = rw e (rw d)

options_lem :
    (names : NameMaps) (fs : List Frame) (i : ℕ) {s : String}
    → lookup_idx i names.idx_to_name ≡ some s
    → All (λ (f : Frame). i < length f.rules) fs
    → (gs : List Frame) × (options names fs i ≡ ok gs)
      × All (Has fs i) gs
      × (((gs ≡ []) × (first_rule fs i ≡ none)) ⊎ (0 < length gs))
unfolding options
options_lem names [] i e a = ([], refl, tt, inl (refl, unfold first_rule in refl))
options_lem names (f ∷ fs) i e a =
    let (gs, eq, all, end) = options_lem names fs i e a.1 in
    let valid = valid_in-eq names f i e a.0 in
    elim (Option-cases (rule_in f i)) [
      | inl missing ↦ (
        gs,
        options-step names f fs gs i false (valid ∙ ap (λ o. ok (is_some o)) missing) eq,
        All-Has-cons f fs i gs all,
        elim end [
          | inl (none_left, same) ↦ inl (none_left, first_rule-cons f fs i ∙ rw missing same)
          | inr some_left ↦ inr some_left
        ],
      )
      | inr (rule, found) ↦ (
        f ∷ gs,
        options-step names f fs gs i true (valid ∙ ap (λ o. ok (is_some o)) found) eq,
        ((0, rule, refl, found), All-Has-cons f fs i gs all),
        inr (omega arith),
      )
    ]

-- What `GetAnyRule` does with the managers that it has found.
abbrev pick : ℕ → Rand → List Frame → Outcome (Option Rule × Rand)
pick i r gs =
    if length gs == 0
    then fail Fault.div_by_zero
    else (or_fail (get_elem? gs ((next r).0 % length gs)) Fault.out_of_range >>= λ f.
        ok (rule_in f i, (next r).1))

get_any_rule-eq :
    (m : RuleManager) (i : ℕ) (r : Rand) (gs : List Frame) {p : Frame} {ps : List Frame}
    → m.parents ≡ p ∷ ps
    → options m.names (m.top ∷ p ∷ ps) i ≡ ok gs
    → get_any_rule m i r ≡ pick i r gs
unfolding get_any_rule
get_any_rule-eq m i r gs q e = rw (q, get_any_rule) (rw e)

level-All :
    (m : RuleManager) (i : ℕ) (fs : List Frame)
    → i < length m.top.rules
    → All (λ (f : Frame). length f.rules ≡ length m.top.rules) fs
    → All (λ (f : Frame). i < length f.rules) fs
level-All m i [] h a = tt
level-All m i (f ∷ fs) h a = (omega (arith, a.0), level-All m i fs h a.1)

unshadowed :
    (m : RuleManager) (i : ℕ) {p : Frame} {ps : List Frame}
    → m.parents ≡ p ∷ ps
    → first_rule (m.top ∷ p ∷ ps) i ≡ none
    → get_unshadowed_rule m i ≡ none
unfolding get_unshadowed_rule
unshadowed m i q e = rw q e

picked :
    (i : ℕ) (r : Rand) (gs : List Frame) {g : Frame} {rule : Rule}
    → 0 < length gs
    → get_elem? gs ((next r).0 % length gs) ≡ some g
    → rule_in g i ≡ some rule
    → pick i r gs ≡ ok (some rule, (next r).1)
picked i r gs some_left e d = rw (ne→==_false (length gs) 0 (omega arith)) (rw e (rw d))

get_any_rule_root :
    (m : RuleManager) (i : ℕ) (r : Rand)
    → m.parents ≡ []
    → get_any_rule m i r ≡ ok (get_rule m i, r)
unfolding get_any_rule
get_any_rule_root m i r e = simp (e, get_any_rule)

-- Where each place has a name and all managers of the chain have a slot for each rule: a manager without
-- parent returns its own rule, if any, and draws no number. One with a parent divides by zero where no
-- manager of the chain has the rule; else it returns the rule as one of these managers has it, after
-- drawing one number.
pub get_any_rule_cases :
    (m : RuleManager) (i : ℕ) (r : Rand)
    → IsNamed m
    → IsLevel m
    → i < length m.top.rules
    → ((m.parents ≡ []) × (get_any_rule m i r ≡ ok (get_rule m i, r)))
      ⊎ ((p : Frame) × (ps : List Frame) × (m.parents ≡ p ∷ ps)
          × (get_unshadowed_rule m i ≡ none)
          × (get_any_rule m i r ≡ fail Fault.div_by_zero))
      ⊎ ((p : Frame) × (ps : List Frame) × (rule : Rule) × (frame : Frame) × (k : ℕ) × (m.parents
            ≡ p ∷ ps)
          × (get_elem? (m.top ∷ m.parents) k ≡ some frame)
          × (rule_in frame i ≡ some rule)
          × (get_any_rule m i r ≡ ok (some rule, (next r).1)))
unfolding name_of
get_any_rule_cases m i r v level h = elim (List-cases m.parents) [
  | inl root ↦ inl (root, get_any_rule_root m i r root)
  | inr (p, ps, q) ↦
      let (s, named) = v.named i h in
      let in_all : All (λ (f : Frame). i < length f.rules) (m.top ∷ p ∷ ps) =
        (h, level-All m i (p ∷ ps) h (rw q at level)) in
      let (gs, eq, all, end) = options_lem m.names (m.top ∷ p ∷ ps) i {s = s} named in_all in
      let run = get_any_rule-eq m i r gs q eq in
      elim end [
        | inl (none_left, unseen) ↦
            inr (inl (p, ps, q, unshadowed m i q unseen, run ∙ rw none_left))
        | inr some_left ↦
            let (g, at) = get_elem?_below gs ((next r).0 % length gs) (mod-lt _ some_left) in
            let (k, rule, place, found) =
              All_get (Has (m.top ∷ p ∷ ps) i) gs ((next r).0 % length gs) all at in
            inr (
              inr (p, ps, rule, g, k, q, rw q place, found, run ∙ picked i r gs some_left at found))
      ]
]
