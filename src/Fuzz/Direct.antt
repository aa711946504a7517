-- ===== src/Fuzz/Direct.antt =====
-- The option --direct of ws/libresmack_fuzz_main/src/main.cpp, with which `main` calls `FuzzLoop` without
-- a tracee.
use mathlib.Core.Path.{subst}
use resmack.Prelude.{ℕ, ◌+◌, ◌%◌, ◌^◌, ◌≡◌, ◌≢◌, refl, false, [], none, not, ◌==◌, length, arith}
use resmack.Prelude.Outcome.{Fault, ok, fail, guard, Holds, Holds-bind, Holds-after, Holds-if}
use resmack.Rand.{maybe, snapshot_clear}
use resmack.Build.{build, rules_build}
use resmack.Mutate.{mutate_rand_snapshot}
use resmack.Corpus.Add.{get_item}
use resmack.State.{sync_stats, inc_num_iterations}
use resmack.Fuzz.Options.{FuzzOptions}
use resmack.Fuzz.{
  Host, FuzzState, Chosen, note_threshhold, count_round, choose_input, create_input, mutate_input,
  build_output, save_for_tracer, fuzz_round,
}

abbrev NoTracee : FuzzState → Type 0
NoTracee st = st.tracee ≡ none

abbrev NoneAfter : Chosen → Type 0
NoneAfter chosen = chosen.after.tracee ≡ none

module _ (host : Host) (opts : FuzzOptions) where
  count_round-NoTracee : (st : FuzzState) → NoTracee st → Holds NoTracee (count_round host opts st)
  unfolding count_round note_threshhold
  count_round-NoTracee st h =
      let st1 = record st { counts = (st.counts + 1) % 2 ^ 64 } in
      Holds-bind NoTracee NoTracee _ _
        (Holds-after NoTracee (guard (not (opts.stats_interval == 0)) Fault.div_by_zero) _ (λ u.
          Holds-if NoTracee (st1.counts % opts.stats_interval == 0) _ _
            (Holds-after NoTracee
              (sync_stats host.sorters st.stats (inc_num_iterations opts.stats_interval st.state)) _
              (λ q. h))
            h))
        (λ st2 e. e)

  mutate_input-NoTracee :
      (st : FuzzState) → NoTracee st → Holds NoneAfter (mutate_input host opts st)
  unfolding mutate_input
  mutate_input-NoTracee st h =
      Holds-after NoneAfter (get_item host.sorters st.meta_rand st.state.corpus st.state.shared) _
        (λ q.
          Holds-after NoneAfter (mutate_rand_snapshot q.3 q.0 (opts.max_depth % 2 ^ 32)) _ (λ p. h))

  choose_input-NoTracee :
      (st : FuzzState) → NoTracee st → Holds NoneAfter (choose_input host opts st)
  unfolding choose_input create_input
  choose_input-NoTracee st h =
      let (heads, r) = maybe st.meta_rand in
      Holds-if NoneAfter (length st.state.corpus.snapshots == 0) _ _ h (
        Holds-if NoneAfter (not st.past_create_threshhold) _ _ (mutate_input-NoTracee st h)
          (Holds-if NoneAfter heads _ _ h (mutate_input-NoTracee (record st { meta_rand = r }) h)))

  save_for_tracer_fails :
      (chosen : Chosen) (st : FuzzState)
      → NoTracee st
      → save_for_tracer host opts chosen st ≡ fail Fault.null_deref
  unfolding save_for_tracer
  save_for_tracer_fails chosen st h = rw h refl

-- What no turn returns.
abbrev Never : FuzzState → Type 0
Never st = ◌≡◌ {A = ℕ} 0 1

fuzz_round-Never :
    (host : Host) (opts : FuzzOptions) (rule_idx : ℕ) (st : FuzzState)
    → NoTracee st
    → Holds Never (fuzz_round host opts rule_idx st)
unfolding fuzz_round build_output
fuzz_round-Never host opts rule_idx st h =
    Holds-bind NoTracee Never (count_round host opts st) _ (count_round-NoTracee host opts st h)
      (λ st1 h1.
        Holds-bind NoneAfter Never (choose_input host opts st1) _
          (choose_input-NoTracee host opts st1 h1)
          (λ chosen h2.
            Holds-bind NoTracee Never (build_output host rule_idx chosen.after) _
              (Holds-after NoTracee
                (rules_build host.env (build host.env host.build_fuel) rule_idx false
                  (record (chosen.after.ctx) {
                    output = [];
                    rand = snapshot_clear chosen.after.ctx.rand;
                  }))
                _ (λ p. h2))
              (λ st2 h3. rw (save_for_tracer_fails host opts chosen st2 h3) tt)))

-- Without a tracee, as with the option --direct, no turn of the loop returns.
pub direct_never_returns :
    (host : Host) (opts : FuzzOptions) (rule_idx : ℕ) (st st' : FuzzState)
    → st.tracee ≡ none
    → fuzz_round host opts rule_idx st ≢ ok st'
direct_never_returns host opts rule_idx st st' h e =
    let never : ◌≡◌ {A = ℕ} 0 1 =
      subst (Holds Never) e (fuzz_round-Never host opts rule_idx st h) in
    absurd (omega (arith, never))
