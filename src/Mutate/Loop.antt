-- ===== src/Mutate/Loop.antt =====
-- The loop of `MutateRandSnapshot` ends, and makes one to three replacements.
use resmack.Prelude.{
  ℕ, zero, suc, ◌+◌, ◌-◌, ◌%◌, ◌^◌, ◌≤◌, ◌<◌, ◌≡◌, refl, sym, ◌∙◌, ◌⊎◌, inl, inr, true, false, List,
  [], ◌∷◌, ◌++◌, append-nil, append_assoc, leb, ltb, ◌==◌, if◌then◌else◌, arith, length, drop,
  get_elem?, dec_lt, get_elem?_below, Bool-cases, some, lt→ltb, subst, le→ltb_false, lt→leb_false,
  length-drop,
}
use native.Mathlib.Nat.{mod-lt}
use native.Mathlib.Numerals.{add-one}
use resmack.Prelude.Outcome.{ok}
use resmack.Rand.{Rand, RandSnapshot, next}
use resmack.Mutate.{MutState, mutate_item, mutate_step, mutate_loop, mutate_rand_snapshot}
use resmack.Mutate.Shape.{Mutated, done, keep, change, drop-skip_deeper, skip_deeper_bounds}
use resmack.Mutate.Item.{Replaced, mutate_item_lem}

-- The replacements that a state can still make.
abbrev pub budget : MutState → ℕ
budget st = st.num_to_mutate + (if leb st.curr_idx st.idx_to_mutate then 1 else 0)

record Finished (total fuel : ℕ) (orig : List RandSnapshot) (st : MutState) : Type 0 where
  count : ℕ
  tail : List RandSnapshot
  final : MutState
  returns : mutate_loop fuel total orig st ≡ ok final
  output : final.new_ss ≡ st.new_ss ++ tail
  shape : Mutated total count (drop st.curr_idx orig) tail
  at_most : count ≤ budget st
  at_least : st.curr_idx ≤ st.idx_to_mutate → st.idx_to_mutate < length orig → 1 ≤ count

drop-get_elem? :
    (i : ℕ) (xs : List RandSnapshot) {x : RandSnapshot}
    → get_elem? xs i ≡ some x
    → drop i xs ≡ x ∷ drop (suc i) xs
drop-get_elem? zero [] e = cc
drop-get_elem? zero (y ∷ xs) e = ground arith
drop-get_elem? (suc i) [] e = cc
drop-get_elem? (suc i) (y ∷ xs) e = drop-get_elem? i xs e

drop_all : (i : ℕ) (xs : List RandSnapshot) → length xs ≤ i → drop i xs ≡ []
drop_all zero [] h = refl
drop_all zero (x ∷ xs) h = elim h [ ]
drop_all (suc i) [] h = refl
drop_all (suc i) (x ∷ xs) h = drop_all i xs (omega arith)

module _ (total : ℕ) (orig : List RandSnapshot) where
  mutate_step-change :
      (st : MutState) {x : RandSnapshot} (st' : MutState)
      → get_elem? orig st.curr_idx ≡ some x
      → (st.curr_idx == st.idx_to_mutate) ≡ true
      → mutate_item total orig x st ≡ ok st'
      → mutate_step total orig st ≡ ok st'
  unfolding mutate_step
  mutate_step-change st st' e hit m = rw e (rw hit m)

  mutate_loop-step :
      (fuel : ℕ) (st st' : MutState)
      → st.curr_idx < length orig
      → mutate_step total orig st ≡ ok st'
      → mutate_loop (suc fuel) total orig st ≡ mutate_loop fuel total orig st'
  unfolding mutate_loop
  mutate_loop-step fuel st st' h e = rw (lt→ltb _ _ h) (rw e)

  finish_change :
      (fuel : ℕ) (st st' : MutState) {x : RandSnapshot}
      → st.curr_idx < length orig
      → get_elem? orig st.curr_idx ≡ some x
      → (st.curr_idx == st.idx_to_mutate) ≡ true
      → mutate_item total orig x st ≡ ok st'
      → Replaced total orig x st st'
      → Finished total fuel orig st'
      → Finished total (suc fuel) orig st
  finish_change fuel st st' {x = x} inside e hit m p f =
      let past : suc st.curr_idx ≤ st'.curr_idx =
        rw p.moved
          (skip_deeper_bounds x.ref_depth (suc st.curr_idx) (drop (suc st.curr_idx) orig)).0 in
      record {
        count = suc f.count;
        tail = p.entry ∷ f.tail;
        final = f.final;
        returns =
            mutate_loop-step fuel st st' inside (mutate_step-change st st' e hit m) ∙ f.returns;
        output = f.output ∙ rw p.appended (append_assoc st.new_ss (p.entry ∷ []) f.tail);
        shape = rw (drop-get_elem? st.curr_idx orig e) (
            change x p.entry p.same_depth p.same_rule p.depth_bound (
              subst (λ l. Mutated total f.count l f.tail)
                (rw p.moved (
                  drop-skip_deeper x.ref_depth (suc st.curr_idx) (drop (suc st.curr_idx) orig) orig
                    refl))
                f.shape));
        at_most = ground (arith, f.at_most, past);
        at_least = λ _ _. omega arith;
      }

  finish_keep :
      (fuel : ℕ) (st : MutState) {x : RandSnapshot}
      → st.curr_idx < length orig
      → get_elem? orig st.curr_idx ≡ some x
      → (st.curr_idx == st.idx_to_mutate) ≡ false
      → Finished total fuel orig
          (record st { curr_idx = st.curr_idx + 1; new_ss = st.new_ss ++ x ∷ [] })
      → Finished total (suc fuel) orig st
  unfolding mutate_step
  finish_keep fuel st {x = x} inside e miss f = record {
    count = f.count;
    tail = x ∷ f.tail;
    final = f.final;
    returns = mutate_loop-step fuel st _ inside (rw e (rw miss)) ∙ f.returns;
    output = f.output ∙ append_assoc st.new_ss (x ∷ []) f.tail;
    shape = rw (drop-get_elem? st.curr_idx orig e) (keep x (rw (add-one st.curr_idx) at f.shape));
    at_most = ground arith;
    at_least = λ a b. f.at_least (ground arith) b;
  }

  finish_end :
      (fuel : ℕ) (st : MutState) → length orig ≤ st.curr_idx → Finished total (suc fuel) orig st
  unfolding mutate_loop
  finish_end fuel st h = record {
    count = 0;
    tail = [];
    final = st;
    returns = rw (le→ltb_false _ _ h);
    output = sym (append-nil st.new_ss);
    shape = rw (drop_all st.curr_idx orig h) done;
    at_most = omega arith;
    at_least = λ a b. absurd (omega arith);
  }

  mutate_loop-Finished :
      (fuel : ℕ) (st : MutState)
      → 0 < total
      → total < 2 ^ 32
      → st.curr_idx ≤ length orig
      → length orig - st.curr_idx < fuel
      → Finished total fuel orig st
  mutate_loop-Finished zero st pos fits le h = elim h [ ]
  mutate_loop-Finished (suc fuel) st pos fits le h = elim (dec_lt st.curr_idx (length orig)) [
    | no past ↦ finish_end fuel st (omega arith)
    | yes inside ↦
        let (x, e) = get_elem?_below orig st.curr_idx inside in
        elim (Bool-cases (st.curr_idx == st.idx_to_mutate)) [
          | inl hit ↦
              let (st', m, p) = mutate_item_lem total orig x st pos fits inside in
              let rest = drop (suc st.curr_idx) orig in
              let on = skip_deeper_bounds x.ref_depth (suc st.curr_idx) rest in
              let left = length-drop (suc st.curr_idx) orig in
              finish_change fuel st st' inside e hit m p (
                mutate_loop-Finished fuel st' pos fits (omega (arith, p.moved, on.0, on.1, left))
                  (omega (arith, p.moved, on.0, on.1, left)))
          | inr miss ↦
              finish_keep fuel st inside e miss
                (mutate_loop-Finished fuel _ pos fits (omega arith) (omega arith))
        ]
  ]

-- The first snapshot is never the chosen one.
first_step :
    (total fuel : ℕ) (x : RandSnapshot) (rest : List RandSnapshot) (st : MutState)
    → st.curr_idx ≡ 0
    → 1 ≤ st.idx_to_mutate
    → mutate_loop (suc fuel) total (x ∷ rest) st
      ≡ mutate_loop fuel total
          (x ∷ rest)
          (record st { curr_idx = st.curr_idx + 1; new_ss = st.new_ss ++ x ∷ [] })
unfolding mutate_loop mutate_step
first_step total fuel x rest st e h = rw e (ground (arith, lt→ltb 0 (suc (length rest))))

-- With a maximal depth from 1 to 2 ^ 32 - 1, `MutateRandSnapshot` returns: it divides by no zero and
-- the loop ends. Of a recording with at most one snapshot it makes the empty one. Any other keeps its
-- first snapshot, and in the rest one to three entries are replaced: each keeps its depth and its
-- rule, has a maximal depth below the given one or no greater than before, and loses the deeper
-- entries that follow it. All other entries stay as they are, in their order.
pub mutate_rand_snapshot-Mutated :
    (r : Rand) (orig : List RandSnapshot) (total : ℕ)
    → 0 < total
    → total < 2 ^ 32
    → (out : List RandSnapshot) × (r' : Rand) × (mutate_rand_snapshot r orig total ≡ ok (out, r'))
      × (((length orig ≤ 1) × (out ≡ []))
          ⊎ ((first : RandSnapshot) × (rest : List RandSnapshot) × (rest' : List RandSnapshot)
              × (n : ℕ) × (orig ≡ first ∷ rest)
              × (out ≡ first ∷ rest')
              × (1 ≤ n)
              × (n ≤ 3)
              × Mutated total n rest rest'))
unfolding mutate_rand_snapshot
mutate_rand_snapshot-Mutated r [] total pos fits = ([], r, refl, inl (omega arith, refl))
mutate_rand_snapshot-Mutated r (x ∷ []) total pos fits = ([], r, refl, inl (omega arith, refl))
mutate_rand_snapshot-Mutated r (x ∷ y ∷ rest) total pos fits =
    let v = (next r).0 in
    let chosen : ℕ = v % (length (x ∷ y ∷ rest) - 1) + 1 in
    let small : chosen ≤ suc (length rest) = omega (arith, mod-lt v {m = suc (length rest)}) in
    let st : MutState = record {
      curr_idx = 0;
      idx_to_mutate = chosen;
      num_to_mutate = (if ltb 3 chosen then 3 else chosen) - 1;
      rand = (next r).1;
      new_ss = [];
    } in
    let f =
      mutate_loop-Finished total (x ∷ y ∷ rest) (suc (suc (length rest)))
        (record st { curr_idx = 0 + 1; new_ss = x ∷ [] }) pos fits (omega arith) (omega arith) in
    (
      f.final.new_ss,
      f.final.rand,
      rw (lt→leb_false (length (x ∷ y ∷ rest)) 1 (omega arith))
          (rw (first_step total _ x (y ∷ rest) st refl (omega arith) ∙ f.returns)),
      inr (
        x,
        y ∷ rest,
        f.tail,
        f.count,
        refl,
        f.output,
        f.at_least (omega arith) (omega arith),
        ground (arith, f.at_most),
        f.shape,
      ),
    )
