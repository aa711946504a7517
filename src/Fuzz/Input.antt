-- ===== src/Fuzz/Input.antt =====
-- Which input a turn of `FuzzLoop` of ws/libresmack_fuzz_main/src/main.cpp builds, and what it leaves for
-- the tracing process.
use mathlib.Core.Path.{subst, sym, ◌∙◌}
use resmack.Prelude.{
  ℕ, ◌^◌, ◌≤◌, ◌<◌, ◌≡◌, ◌⊎◌, inl, inr, refl, true, false, List, [], ◌++◌, ◌==◌, Bool-cases, some,
  length,
}
use resmack.Prelude.Outcome.{Outcome, ok, ◌>>=◌, Holds, Holds-bind, Holds-after}
use resmack.Rand.{Rand, RandSnapshot, maybe, snapshot_clear}
use resmack.Build.{build, rules_build}
use resmack.Tracee.{
  Tracee, save_last_corpus_info, save_last_replay, load_last_replay, iter_start_at,
}
use resmack.Tracee.Replay.{save_then_load, saved_used_corpus}
use resmack.Fuzz.Options.{FuzzOptions}
use resmack.Fuzz.{
  Host, FuzzState, Chosen, choose_input, create_input, save_for_tracer, build_output,
}

-- The turn creates an input.
abbrev pub Creates : FuzzState → Type 0
Creates st =
    (length st.state.corpus.snapshots ≡ 0)
    ⊎ ((st.past_create_threshhold ≡ true) × ((maybe st.meta_rand).0 ≡ true))

-- The tracing process would load `old` behind `dest`, for an input that is not from the corpus.
abbrev pub Reloads : List RandSnapshot → List RandSnapshot → FuzzState → Type 0
Reloads old dest st =
    (t : Tracee) × (st.tracee ≡ some t)
    × (load_last_replay t dest ≡ ok (dest ++ old))
    × (t.basic_shared.last_used_corpus ≡ false)

-- From the choice of an input to the saving for the tracing process.
unfoldable pub prepare : Host → FuzzOptions → ℕ → FuzzState → Outcome FuzzState
prepare host opts rule_idx st = choose_input host opts st >>= λ chosen.
    build_output host rule_idx chosen.after >>= λ st1. save_for_tracer host opts chosen st1

module _ (host : Host) (opts : FuzzOptions) (rule_idx : ℕ) where
  draws_new_input :
      (st : FuzzState)
      → Creates st
      → (r : Rand) × (choose_input host opts st
          ≡ ok (create_input host opts (record st { meta_rand = r })))
  unfolding choose_input
  draws_new_input st (inl empty) = (st.meta_rand, rw empty refl)
  draws_new_input st (inr (past, heads)) =
      elim (Bool-cases (length st.state.corpus.snapshots == 0)) [
        | inl empty ↦ (st.meta_rand, rw empty refl)
        | inr full ↦ ((maybe st.meta_rand).1, rw (full, past, heads) refl)
      ]

  save_for_tracer-Reloads :
      (chosen : Chosen) (st : FuzzState) (t : Tracee) (dest : List RandSnapshot)
      → chosen.used_corpus ≡ false
      → st.tracee ≡ some t
      → length st.mutated_replay < 2 ^ 16
      → length st.mutated_replay ≤ length t.basic_shared.states
      → Holds (Reloads st.mutated_replay dest) (save_for_tracer host opts chosen st)
  unfolding save_for_tracer iter_start_at save_last_corpus_info load_last_replay
  save_for_tracer-Reloads chosen st t dest created there small room =
      let informed =
        save_last_corpus_info chosen.used_corpus chosen.last_corpus_idx1 chosen.last_corpus_idx2
          opts.max_depth t in
      let (saves, loads) = save_then_load st.mutated_replay dest informed small room in
      rw there (
        rw saves (
          iter_start_at (host.times st.counts).iter_start
              (save_last_replay st.mutated_replay informed).1,
          refl,
          loads,
          saved_used_corpus st.mutated_replay informed small room ∙ created,
        ))

  prepare-Reloads :
      (st : FuzzState) (t : Tracee) (dest : List RandSnapshot)
      → Creates st
      → st.tracee ≡ some t
      → length st.mutated_replay < 2 ^ 16
      → length st.mutated_replay ≤ length t.basic_shared.states
      → Holds (Reloads st.mutated_replay dest) (prepare host opts rule_idx st)
  unfolding prepare build_output create_input
  prepare-Reloads st t dest creates there small room =
      let (r, chooses) = draws_new_input st creates in
      let chosen = create_input host opts (record st { meta_rand = r }) in
      rw chooses (
        Holds-bind
          (λ (st1 : FuzzState). (st1.mutated_replay ≡ st.mutated_replay) × (st1.tracee ≡ some t))
          (Reloads st.mutated_replay dest) (build_output host rule_idx chosen.after) _
          (Holds-after _
            (rules_build host.env (build host.env host.build_fuel) rule_idx false
              (record (chosen.after.ctx) {
                output = [];
                rand = snapshot_clear chosen.after.ctx.rand;
              }))
            _ (λ p. (refl, there)))
          (λ st1 (same, there1).
            subst (λ l. Holds (Reloads l dest) (save_for_tracer host opts chosen st1)) same
              (save_for_tracer-Reloads chosen st1 t dest refl there1
                (subst (λ l. length l < 2 ^ 16) (sym same) small)
                (subst (λ l. length l ≤ length t.basic_shared.states) (sym same) room))))

-- A turn that creates an input, since the corpus is empty or its draw says so, leaves the recording of
-- an earlier turn in `mutated_replay`: where there is room, this is what the tracing process will load,
-- whatever has been built, and that the input is not from the corpus.
pub created_leaves_old_replay :
    (host : Host) (opts : FuzzOptions) (rule_idx : ℕ) (st st' : FuzzState) (t : Tracee)
    (dest : List RandSnapshot)
    → Creates st
    → st.tracee ≡ some t
    → length st.mutated_replay < 2 ^ 16
    → length st.mutated_replay ≤ length t.basic_shared.states
    → prepare host opts rule_idx st ≡ ok st'
    → Reloads st.mutated_replay dest st'
created_leaves_old_replay host opts rule_idx st st' t dest creates there small room h =
    subst (Holds (Reloads st.mutated_replay dest)) h
      (prepare-Reloads host opts rule_idx st t dest creates there small room)
