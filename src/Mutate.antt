-- ===== src/Mutate.antt =====
-- Mutation of a recorded generation: ws/libresmack_fuzz/src/mutate.cpp. A recorded generation is the
-- list of snapshots that one build took, in the order in which the rules were entered, so that the
-- entries after one that have a greater `ref_depth` are the rules that it called.
pub mod Shape
pub mod Item
pub mod Loop
mod Tests
use resmack.Prelude.{
  ℕ, zero, suc, ◌+◌, ◌-◌, ◌%◌, ◌^◌, Bool, true, false, not, ◌&&◌, List, [], ◌∷◌, ◌++◌, ◌==◌, ltb,
  leb, if◌then◌else◌, length, get_elem?, drop,
}
use resmack.Prelude.Outcome.{Outcome, ok, fail, or_fail, Fault, ◌>>=◌}
use resmack.Rand.{Rand, RandState, RandSnapshot, next, maybe}

pub record MutState : Type 0 where
  pub curr_idx : ℕ
  pub idx_to_mutate : ℕ
  pub num_to_mutate : ℕ
  pub rand : Rand
  pub new_ss : List RandSnapshot

-- The `for` loop of `CascadeMutatedState`: `rest` are the entries from `idx` on.
unfoldable pub skip_deeper : ℕ → ℕ → List RandSnapshot → ℕ
skip_deeper depth idx [] = idx
skip_deeper depth idx (x ∷ rest) =
    if leb x.ref_depth depth then idx else skip_deeper depth (suc idx) rest

unfoldable pub cascade_mutated_state :
    RandState → ℕ → RandSnapshot → ℕ → List RandSnapshot → List RandSnapshot → ℕ × List RandSnapshot
cascade_mutated_state new_state new_max_depth item item_idx orig_ss new_ss = (
  skip_deeper item.ref_depth (suc item_idx) (drop (suc item_idx) orig_ss),
  new_ss
      ++ record {
        ref_depth = item.ref_depth;
        max_depth = new_max_depth;
        rule_idx = item.rule_idx;
        state = new_state;
      }
        ∷ [],
)

-- x % n, where the code divides by a number that may be 0.
abbrev pub rem : ℕ → ℕ → Outcome ℕ
rem x n = if n == 0 then fail Fault.div_by_zero else ok (x % n)

-- Another index to mutate, behind the current one, while there are any left to choose.
unfoldable pub retarget : List RandSnapshot → MutState → Outcome MutState
retarget orig_ss st =
    if not (st.curr_idx == length orig_ss - 1) && ltb 0 st.num_to_mutate
    then (let (v, r) = next st.rand in
        rem v (length orig_ss - st.curr_idx - 1) >>= λ w. ok (record st {
          idx_to_mutate = w + st.curr_idx + 1;
          num_to_mutate = st.num_to_mutate - 1;
          rand = r;
        }))
    else ok st

-- The test `curr.max_depth == 0 || (curr.max_depth < total_max_depth && rand->Maybe())`.
unfoldable pub do_increase : ℕ → ℕ → Rand → Bool × Rand
do_increase total_max_depth max_depth r =
    if max_depth == 0
    then (true, r)
    else if ltb max_depth total_max_depth
    then maybe r
    else (false, r)

unfoldable pub new_max_depth : ℕ → ℕ → Rand → Outcome (ℕ × Rand)
new_max_depth total_max_depth max_depth r =
    let (increase, r1) = do_increase total_max_depth max_depth r in
    let (v, r2) = next r1 in
    if increase
    then (let range : ℕ = (total_max_depth + 2 ^ 32 - max_depth) % 2 ^ 32 in
        rem v range >>= λ w. ok ((w + max_depth) % 2 ^ 32, r2))
    else (rem v max_depth >>= λ w. ok (w, r2))

unfoldable pub replace :
    RandState → ℕ → RandSnapshot → List RandSnapshot → Rand → MutState → MutState
replace new_state max_depth curr orig_ss r st =
    let (idx, ss) = cascade_mutated_state new_state max_depth curr st.curr_idx orig_ss st.new_ss in
    record st { curr_idx = idx; new_ss = ss; rand = r }

unfoldable pub mutate_item : ℕ → List RandSnapshot → RandSnapshot → MutState → Outcome MutState
mutate_item total_max_depth orig_ss curr st0 = retarget orig_ss st0 >>= λ st.
    let (change_depth, r1) = maybe st.rand in
    if change_depth
    then (new_max_depth total_max_depth curr.max_depth r1 >>= λ p.
        let (only_depth, r3) = maybe p.1 in
        ok (replace (if only_depth then curr.state else r3.s) p.0 curr orig_ss r3 st))
    else ok (replace r1.s curr.max_depth curr orig_ss r1 st)

-- The body of the `while` loop.
unfoldable pub mutate_step : ℕ → List RandSnapshot → MutState → Outcome MutState
mutate_step total_max_depth orig_ss st =
    or_fail (get_elem? orig_ss st.curr_idx) Fault.thrown >>= λ curr.
    if st.curr_idx == st.idx_to_mutate
    then mutate_item total_max_depth orig_ss curr st
    else ok (record st { curr_idx = st.curr_idx + 1; new_ss = st.new_ss ++ curr ∷ [] })

unfoldable pub mutate_loop : ℕ → ℕ → List RandSnapshot → MutState → Outcome MutState
mutate_loop zero total_max_depth orig_ss st = fail Fault.no_fuel
mutate_loop (suc fuel) total_max_depth orig_ss st =
    let rest =
      mutate_step total_max_depth orig_ss st >>= mutate_loop fuel total_max_depth orig_ss in
    if ltb st.curr_idx (length orig_ss) then rest else ok st

-- The new snapshots and the generator, with as much fuel as there are snapshots.
unfoldable pub mutate_rand_snapshot :
    Rand → List RandSnapshot → ℕ → Outcome (List RandSnapshot × Rand)
mutate_rand_snapshot r orig_ss total_max_depth =
    if leb (length orig_ss) 1
    then ok ([], r)
    else (let (v, r1) = next r in
        let chosen : ℕ = v % (length orig_ss - 1) + 1 in
        mutate_loop (suc (length orig_ss)) total_max_depth orig_ss (record {
          curr_idx = 0;
          idx_to_mutate = chosen;
          num_to_mutate = (if ltb 3 chosen then 3 else chosen) - 1;
          rand = r1;
          new_ss = [];
        })
        >>= λ st. ok (st.new_ss, st.rand))
