-- ===== src/Manager/Names.antt =====
-- The two maps of a manager stay inverse to one another and name exactly the slots of its table.
use Prim.Native.String.{String}
use text.Mathlib.Text.{◌==◌ as str_eq}
use text.Mathlib.TextEquality.{eq_iff}
use text.Mathlib.TextPositions.{eq_refl}
use resmack.Prelude.{
  ℕ, ◌+◌, ◌<◌, ◌≡◌, ◌≢◌, refl, sym, inl, inr, [], ◌∷◌, ◌++◌, Option, none, some, false, ◌==◌,
  if◌then◌else◌, length, length-append, length-set, arith, Bool-cases, Option-cases, dec_lt,
  get_elem?_below, get_elem?_above, get_elem?-set_self, get_elem?-set_ne, get_elem?-append_left,
  get_elem?-append_length,
}
use resmack.Prelude.Outcome.{ok}
use resmack.Item.Rule.{Rule, new_rule}
use resmack.Manager.{
  RuleManager, index_of, name_of, get_rule, set_rule, init, inherit_keep, ensure_name,
}

-- Every name has a slot, every slot has a name, and the maps are inverse.
pub record IsNamed (m : RuleManager) : Type 0 where
  pub in_range : (s : String) (i : ℕ) → index_of m s ≡ some i → i < length m.top.rules
  pub to_name : (s : String) (i : ℕ) → index_of m s ≡ some i → name_of m i ≡ some s
  pub to_idx : (s : String) (i : ℕ) → name_of m i ≡ some s → index_of m s ≡ some i
  pub named : (i : ℕ) → i < length m.top.rules → (s : String) × (name_of m i ≡ some s)

pub init-IsNamed : IsNamed init
unfolding init index_of name_of
init-IsNamed = record {
  in_range = λ s i e. cc;
  to_name = λ s i e. cc;
  to_idx = λ s i e. cc;
  named = λ i h. absurd (omega arith);
}

-- An update of the table that keeps its length keeps the invariant.
pub set_rule-IsNamed :
    (m : RuleManager) (i : ℕ) (r : Option Rule) → IsNamed m → IsNamed (set_rule m i r)
unfolding index_of name_of
set_rule-IsNamed m i r v = record {
  in_range = λ s j e. rw (length-set m.top.rules i r) (v.in_range s j e);
  to_name = v.to_name;
  to_idx = v.to_idx;
  named = λ j h. v.named j (omega (arith, length-set m.top.rules i r));
}

abbrev pub with_new : RuleManager → String → RuleManager
with_new m s = record {
  names = record {
    idx_to_name = (length m.top.rules, s) ∷ m.names.idx_to_name;
    name_to_idx = (s, length m.top.rules) ∷ m.names.name_to_idx;
  };
  top = record (m.top) { rules = m.top.rules ++ some (new_rule false) ∷ [] };
  parents = m.parents;
}

index_of-with_new :
    (m : RuleManager) (s t : String)
    → index_of (with_new m s) t ≡ (if str_eq s t then some (length m.top.rules) else index_of m t)
unfolding index_of
index_of-with_new m s t = refl

name_of-with_new :
    (m : RuleManager) (s : String) (i : ℕ)
    → name_of (with_new m s) i ≡ (if length m.top.rules == i then some s else name_of m i)
unfolding name_of
name_of-with_new m s i = refl

-- A slot that a name or an index points to is below the new one.
name_of-lt :
    (m : RuleManager)
    → IsNamed m
    → (t : String) (i : ℕ) → name_of m i ≡ some t
    → i < length m.top.rules
name_of-lt m v t i e = v.in_range t i (v.to_idx t i e)

pub with_new-IsNamed :
    (m : RuleManager) (s : String) → IsNamed m → index_of m s ≡ none → IsNamed (with_new m s)
with_new-IsNamed m s v fresh = record {
  in_range = λ t i e. ground (arith, longer, index_of-with_new m s t, v.in_range t i);
  to_name = λ t i e. ground (
    arith,
    index_of-with_new m s t,
    name_of-with_new m s i,
    eq_iff s t,
    v.in_range t i,
    v.to_name t i,
  );
  to_idx = λ t i e. ground (
    arith,
    index_of-with_new m s t,
    name_of-with_new m s i,
    eq_iff s t,
    eq_refl s,
    v.to_idx t i,
    name_of-lt m v t i,
    fresh,
  );
  named = λ i h. elim (Bool-cases (length m.top.rules == i)) [
    | inl at_end ↦ (s, rw (name_of-with_new m s i) (rw at_end))
    | inr before ↦
        let (t, e) = v.named i (ground (arith, longer)) in
        (t, rw (name_of-with_new m s i) (rw before e))
  ];
}
  where
    longer : length (with_new m s).top.rules ≡ length m.top.rules + 1
    longer = length-append m.top.rules (some (new_rule false) ∷ [])

pub get_rule-set_self :
    (m : RuleManager) (i : ℕ) (r : Option Rule)
    → i < length m.top.rules
    → get_rule (set_rule m i r) i ≡ r
unfolding get_rule
get_rule-set_self m i r h = ground (arith, get_elem?-set_self m.top.rules i r h)

pub get_rule-set_ne :
    (m : RuleManager) (i j : ℕ) (r : Option Rule)
    → j ≢ i
    → get_rule (set_rule m i r) j ≡ get_rule m j
unfolding get_rule
get_rule-set_ne m i j r h = ground (arith, get_elem?-set_ne m.top.rules i j r (λ e. h (sym e)))

get_rule-with_new :
    (m : RuleManager) (s : String) (j : ℕ)
    → get_rule (with_new m s) j
      ≡ (if length m.top.rules == j then some (new_rule false) else get_rule m j)
unfolding get_rule
get_rule-with_new m s j = elim (dec_lt j (length m.top.rules)) [
  | yes h ↦ ground (arith, get_elem?-append_left m.top.rules (some (new_rule false) ∷ []) j h)
  | no h ↦ elim (Bool-cases (length m.top.rules == j)) [
    | inl e ↦ ground (arith, get_elem?-append_length m.top.rules [] (some (new_rule false)))
    | inr e ↦ ground (
      arith,
      get_elem?_above m.top.rules j,
      get_elem?_above (m.top.rules ++ some (new_rule false) ∷ []) j,
      length-append m.top.rules (some (new_rule false) ∷ []),
    )
  ]
]

-- `Ensure` by name, in a manager without parent: it returns, the name then has a rule at the
-- returned place, the maps stay inverse and exact, every other name keeps its place (or has none),
-- and every rule at another place is as it was.
pub ensure_name_root :
    (m : RuleManager) (s : String)
    → m.parents ≡ []
    → IsNamed m
    → (i : ℕ) × (m' : RuleManager) × (rule : Rule) × (ensure_name m s ≡ ok (i, m'))
      × IsNamed m'
      × (index_of m' s ≡ some i)
      × (get_rule m' i ≡ some rule)
      × ((t : String) → t ≢ s → index_of m' t ≡ index_of m t)
      × ((j : ℕ) → j ≢ i → get_rule m' j ≡ get_rule m j)
ensure_name_root m s root v = elim (Option-cases (index_of m s)) [
  | inl fresh ↦ (
    length m.top.rules,
    with_new m s,
    new_rule false,
    unfold ensure_name in rw (fresh, ensure_name),
    with_new-IsNamed m s v fresh,
    rw (index_of-with_new m s s) (rw (eq_refl s)),
    rw (get_rule-with_new m s (length m.top.rules)) (ground arith),
    λ t h. ground (arith, index_of-with_new m s t, eq_iff s t),
    λ j h. ground (arith, get_rule-with_new m s j),
  )
  | inr (i, known) ↦
      let inside = v.in_range s i known in
      let (old, e) = get_elem?_below m.top.rules i inside in
      let rule : Rule = elim old [ none ↦ new_rule false | some r ↦ r ] in
      (
        i,
        set_rule m i (some rule),
        rule,
        unfold ensure_name inherit_keep in rw (known, ensure_name) (rw e (rw (root, inherit_keep))),
        set_rule-IsNamed m i (some rule) v,
        unfold index_of in known,
        get_rule-set_self m i (some rule) inside,
        λ t h. unfold index_of in refl,
        λ j h. get_rule-set_ne m i j (some rule) h,
      )
]
