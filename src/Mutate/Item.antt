-- ===== src/Mutate/Item.antt =====
-- One replacement in the loop of `MutateRandSnapshot`: no division by zero, and what the new entry is.
use resmack.Prelude.{
  ℕ, suc, ◌+◌, ◌-◌, ◌%◌, ◌^◌, ◌≤◌, ◌<◌, ◌≡◌, refl, ◌⊎◌, inl, inr, true, false, List, [], ◌∷◌, ◌++◌,
  ltb, ◌==◌, if◌then◌else◌, arith, length, drop, Bool-cases,
}
use native.Mathlib.Nat.{mod-lt}
use resmack.Prelude.Outcome.{ok}
use resmack.Rand.{Rand, RandSnapshot, RandState, next, maybe}
use resmack.Mutate.{
  MutState, skip_deeper, cascade_mutated_state, retarget, do_increase, new_max_depth, replace,
  mutate_item, rem,
}

-- What choosing the next index leaves: either nothing has changed but the generator, or one of the
-- replacements that are left is used up.
abbrev pub Spent : MutState → MutState → Type 0
Spent st st' =
    ((st'.num_to_mutate ≡ st.num_to_mutate) × (st'.idx_to_mutate ≡ st.idx_to_mutate))
    ⊎ (suc st'.num_to_mutate ≡ st.num_to_mutate)

retarget_lem :
    (orig : List RandSnapshot) (st : MutState)
    → st.curr_idx < length orig
    → (st' : MutState) × (retarget orig st ≡ ok st')
      × (st'.curr_idx ≡ st.curr_idx)
      × (st'.new_ss ≡ st.new_ss)
      × Spent st st'
unfolding retarget
retarget_lem orig st h = elim (Bool-cases (st.curr_idx == length orig - 1)) [
  | inl last ↦ (st, rw last, refl, refl, inl (refl, refl))
  | inr inner ↦ elim (Bool-cases (ltb 0 st.num_to_mutate)) [
    | inl more ↦ (
      record st {
        idx_to_mutate = (next st.rand).0 % (length orig - st.curr_idx - 1) + st.curr_idx + 1;
        num_to_mutate = st.num_to_mutate - 1;
        rand = (next st.rand).1;
      },
      ground arith,
      refl,
      refl,
      inr (ground arith),
    )
    | inr none_left ↦ (st, ground arith, refl, refl, inl (refl, refl))
  ]
]

do_increase_lem :
    (total max_depth : ℕ) (r : Rand)
    → 0 < total
    → (((do_increase total max_depth r).0 ≡ true) × (max_depth < total))
      ⊎ (((do_increase total max_depth r).0 ≡ false) × (0 < max_depth))
unfolding do_increase
do_increase_lem total max_depth r pos = elim (Bool-cases (maybe r).0) [
  | inl e ↦ ground arith
  | inr e ↦ ground arith
]

rem_lem : (x n : ℕ) → 0 < n → rem x n ≡ ok (x % n)
rem_lem x n h = ground arith

new_max_depth_lem :
    (total max_depth : ℕ) (r : Rand)
    → 0 < total
    → total < 2 ^ 32
    → (d : ℕ) × (r' : Rand) × (new_max_depth total max_depth r ≡ ok (d, r'))
      × ((d < total) ⊎ (d ≤ max_depth))
unfolding new_max_depth
new_max_depth_lem total max_depth r pos fits =
    let r1 = (do_increase total max_depth r).1 in
    let v = (next r1).0 in
    let r2 = (next r1).1 in
    elim (do_increase_lem total max_depth r pos) [
      | inl (up, below) ↦
          let range : ℕ = (total + 2 ^ 32 - max_depth) % 2 ^ 32 in
          let exact : range ≡ total - max_depth = omega arith in
          let small : v % range < range = mod-lt v (omega arith) in
          (
            (v % range + max_depth) % 2 ^ 32,
            r2,
            rw up (rw (rem_lem v range (omega arith))),
            inl (omega arith),
          )
      | inr (down, above) ↦ (
        v % max_depth,
        r2,
        rw down (rw (rem_lem v max_depth above)),
        inr (omega (arith, mod-lt v above)),
      )
    ]

-- One replacement, as the loop sees it.
pub record Replaced (total : ℕ) (orig : List RandSnapshot) (x : RandSnapshot) (st st' : MutState)
    : Type 0 where
  pub entry : RandSnapshot
  pub same_depth : entry.ref_depth ≡ x.ref_depth
  pub same_rule : entry.rule_idx ≡ x.rule_idx
  pub depth_bound : (entry.max_depth < total) ⊎ (entry.max_depth ≤ x.max_depth)
  pub appended : st'.new_ss ≡ st.new_ss ++ entry ∷ []
  pub moved : st'.curr_idx ≡ skip_deeper x.ref_depth (suc st.curr_idx) (drop (suc st.curr_idx) orig)
  pub spent : Spent st st'

replace_lem :
    (total : ℕ) (orig : List RandSnapshot) (x : RandSnapshot) (st0 st : MutState) (s : RandState)
    (d : ℕ) (r : Rand)
    → st.curr_idx ≡ st0.curr_idx
    → st.new_ss ≡ st0.new_ss
    → Spent st0 st
    → (d < total) ⊎ (d ≤ x.max_depth)
    → Replaced total orig x st0 (replace s d x orig r st)
unfolding replace cascade_mutated_state
replace_lem total orig x st0 st s d r e n sp b = record {
  entry = record { ref_depth = x.ref_depth; max_depth = d; rule_idx = x.rule_idx; state = s };
  same_depth = refl;
  same_rule = refl;
  depth_bound = b;
  appended = rw n;
  moved = rw e;
  spent = sp;
}

pub mutate_item_lem :
    (total : ℕ) (orig : List RandSnapshot) (x : RandSnapshot) (st : MutState)
    → 0 < total
    → total < 2 ^ 32
    → st.curr_idx < length orig
    → (st' : MutState) × (mutate_item total orig x st ≡ ok st') × Replaced total orig x st st'
unfolding mutate_item
mutate_item_lem total orig x st pos fits inside =
    let (st1, e1, same_idx, same_ss, sp) = retarget_lem orig st inside in
    let r1 = (maybe st1.rand).1 in
    let (d, r2, e2, b) = new_max_depth_lem total x.max_depth r1 pos fits in
    let only = (maybe r2).0 in
    let r3 = (maybe r2).1 in
    elim (Bool-cases (maybe st1.rand).0) [
      | inl change_depth ↦
          let s = (if only then x.state else r3.s) in
          (
            replace s d x orig r3 st1,
            rw e1 (rw change_depth (rw e2)),
            replace_lem total orig x st st1 s d r3 same_idx same_ss sp b,
          )
      | inr keep_depth ↦ (
        replace r1.s x.max_depth x orig r1 st1,
        rw e1 (rw keep_depth),
        replace_lem total orig x st st1 r1.s x.max_depth r1 same_idx same_ss sp (inr (omega arith)),
      )
    ]
