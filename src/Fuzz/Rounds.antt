-- ===== src/Fuzz/Rounds.antt =====
-- The number of turns of `FuzzLoop` of ws/libresmack_fuzz_main/src/main.cpp: a turn counts itself and, at
-- each multiple of the interval, adds the interval to the iterations.
use mathlib.Core.Path.{◌∙◌, ap}
use resmack.Prelude.{
  ℕ, ◌+◌, ◌%◌, ◌^◌, ◌≡◌, ◌≢◌, inl, inr, refl, Bool, true, false, not, ◌&&◌, [], ◌==◌, if◌then◌else◌,
  length, arith, Bool-cases,
}
use resmack.Prelude.Outcome.{
  Fault, ok, or_fail, ◌>>=◌, Holds, Holds-bind, Holds-after, Holds-if, Holds-map,
}
use resmack.Rand.{maybe, snapshot_clear}
use resmack.Build.{build, rules_build}
use resmack.Mutate.{mutate_rand_snapshot}
use resmack.Corpus.{FeedbackStats}
use resmack.Corpus.Add.{get_item, add_rand_snapshot_if_not_seen}
use resmack.Corpus.Sync.{sync_counters}
use resmack.Coverage
use resmack.Coverage.{get_stats}
use resmack.Tracee.{save_last_corpus_info, save_last_replay}
use resmack.Target.{target, start_sample, launch, clear}
use resmack.State.{MmapState, StateMetadata, sync_stats, inc_num_iterations}
use resmack.Fuzz.Options.{FuzzOptions}
use resmack.Fuzz.{
  Host, FuzzState, Chosen, note_threshhold, count_round, choose_input, mutate_input, build_output,
  save_for_tracer, run_target, share_coverage, keep_recording, fuzz_round,
}

-- What the stages behind the counting leave alone.
abbrev pub progress : FuzzState → ℕ × StateMetadata × Bool
progress st = (st.counts, st.state.metadata, st.shutting_down)

abbrev SameProgress : FuzzState → FuzzState → Type 0
SameProgress st st' = progress st' ≡ progress st

abbrev ChosenSame : FuzzState → Chosen → Type 0
ChosenSame st chosen = SameProgress st chosen.after

module _ (host : Host) (opts : FuzzOptions) (rule_idx : ℕ) where
  mutate_input-same :
      (st st' : FuzzState)
      → SameProgress st st'
      → Holds (ChosenSame st) (mutate_input host opts st')
  unfolding mutate_input
  mutate_input-same st st' e =
      Holds-after (ChosenSame st)
        (get_item host.sorters st'.meta_rand st'.state.corpus st'.state.shared) _
        (λ q.
          Holds-after (ChosenSame st) (mutate_rand_snapshot q.3 q.0 (opts.max_depth % 2 ^ 32)) _
            (λ p. e))

  choose_input-same : (st : FuzzState) → Holds (ChosenSame st) (choose_input host opts st)
  unfolding choose_input
  choose_input-same st =
      let (heads, r) = maybe st.meta_rand in
      let tossed = record st { meta_rand = r } in
      Holds-if (ChosenSame st) (length st.state.corpus.snapshots == 0) _ _ refl (
        Holds-if (ChosenSame st) (not st.past_create_threshhold) _ _ (mutate_input-same st st refl)
          (Holds-if (ChosenSame st) heads _ _ refl (mutate_input-same st tossed refl)))

  build_output-same : (st : FuzzState) → Holds (SameProgress st) (build_output host rule_idx st)
  unfolding build_output
  build_output-same st =
      Holds-after (SameProgress st)
        (rules_build host.env (build host.env host.build_fuel) rule_idx false
          (record (st.ctx) { output = []; rand = snapshot_clear st.ctx.rand }))
        _ (λ p. refl)

  save_for_tracer-same :
      (chosen : Chosen) (st : FuzzState)
      → Holds (SameProgress st) (save_for_tracer host opts chosen st)
  unfolding save_for_tracer
  save_for_tracer-same chosen st =
      Holds-after (SameProgress st) (or_fail st.tracee Fault.null_deref) _ (λ t.
        Holds-after (SameProgress st)
          (save_last_replay st.mutated_replay (
            save_last_corpus_info chosen.used_corpus chosen.last_corpus_idx1 chosen.last_corpus_idx2
              opts.max_depth t)).0
          _ (λ u. refl))

  run_target-same : (st : FuzzState) → Holds (SameProgress st) (run_target host st)
  unfolding run_target
  run_target-same st =
      let times = host.times st.counts in
      Holds-after (SameProgress st)
        (launch times.launch_times host.calc_hash host.program st.ctx.output
          (start_sample target times.target_at.0 st.stats) st.cov st.cov_shared)
        _ (λ q. refl)

  share_coverage-same : (st : FuzzState) → Holds (SameProgress st) (share_coverage host st)
  unfolding share_coverage
  share_coverage-same st =
      Holds-if (SameProgress st) (get_stats st.cov).new_coverage _ _
        (Holds-after (SameProgress st) (Coverage.sync host.calc_hash st.cov st.cov_shared) _
          (λ q. refl))
        refl

  keep_recording-same :
      (feedback : FeedbackStats) (used_corpus : Bool) (st : FuzzState)
      → Holds (SameProgress st) (keep_recording host feedback used_corpus st)
  unfolding keep_recording
  keep_recording-same feedback used_corpus st =
      Holds-bind (SameProgress st) (SameProgress st) _ _
        (Holds-if (SameProgress st) (st.stats.valid && feedback.new_coverage) _ _
          (Holds-after (SameProgress st)
            (add_rand_snapshot_if_not_seen host.sorters st.state.metadata.iterations
              st.ctx.rand.snapshots feedback used_corpus st.state.corpus st.state.shared)
            _ (λ q. refl))
          refl)
        (λ st1 e. e)

-- The count of turns, the iterations and the flag, which the test at the head of the loop reads.
abbrev pub pace : FuzzState → ℕ × ℕ × Bool
pace st = (st.counts, st.state.metadata.iterations, st.shutting_down)

abbrev pub next_pace : FuzzOptions → FuzzState → ℕ × ℕ × Bool
next_pace opts st = (
  (st.counts + 1) % 2 ^ 64,
  (if (st.counts + 1) % 2 ^ 64 % opts.stats_interval == 0
      then (st.state.metadata.iterations + opts.stats_interval) % 2 ^ 64
      else st.state.metadata.iterations),
  st.shutting_down,
)

abbrev pub Paced : FuzzOptions → FuzzState → FuzzState → Type 0
Paced opts st st' = (pace st' ≡ next_pace opts st) × (opts.stats_interval ≢ 0)

ne_of_test : (n : ℕ) → (n == 0) ≡ false → n ≢ 0
ne_of_test n e = ground arith

module _ (host : Host) (opts : FuzzOptions) where
  synced-pace :
      (st : FuzzState) (b : Bool)
      → Holds
          (λ st'. pace st' ≡ (
            st.counts,
            (if b
                then (st.state.metadata.iterations + opts.stats_interval) % 2 ^ 64
                else st.state.metadata.iterations),
            st.shutting_down,
          ))
          (if b
            then (sync_stats host.sorters st.stats (inc_num_iterations opts.stats_interval st.state)
                >>= λ shared. ok (
                    note_threshhold host opts
                      (record st { state = shared; stats = clear st.stats })))
            else ok st)
  unfolding sync_stats inc_num_iterations note_threshhold
  synced-pace st false = refl
  synced-pace st true =
      let raised = inc_num_iterations opts.stats_interval st.state in
      let Raised : MmapState → Type 0 = λ shared.
        shared.metadata.iterations
        ≡ (st.state.metadata.iterations + opts.stats_interval) % 2 ^ 64 in
      Holds-bind Raised
        (λ st'. pace st' ≡ (
          st.counts,
          (st.state.metadata.iterations + opts.stats_interval) % 2 ^ 64,
          st.shutting_down,
        ))
        (sync_stats host.sorters st.stats raised) _
        (Holds-after Raised (sync_counters host.sorters raised.corpus raised.shared) _ (λ q. refl))
        (λ shared e. ap (λ i. (st.counts, i, st.shutting_down)) e)

  count_round-Paced : (st : FuzzState) → Holds (Paced opts st) (count_round host opts st)
  unfolding count_round
  count_round-Paced st = elim (Bool-cases (opts.stats_interval == 0)) [
    | inl e ↦ rw e tt
    | inr e ↦ rw e (
        Holds-bind (λ st'. pace st' ≡ next_pace opts st) (Paced opts st) _ _
          (synced-pace (record st { counts = (st.counts + 1) % 2 ^ 64 })
            ((st.counts + 1) % 2 ^ 64 % opts.stats_interval == 0))
          (λ st1 h. (h, ne_of_test opts.stats_interval e)))
  ]

kept_pace :
    (opts : FuzzOptions) (st st1 st2 : FuzzState)
    → Paced opts st st1
    → SameProgress st1 st2
    → Paced opts st st2
kept_pace opts st st1 st2 p e =
    (ap (λ (q : ℕ × StateMetadata × Bool). (q.0, q.1.iterations, q.2)) e ∙ p.0, p.1)

-- A turn that returns has counted itself, has added the interval to the iterations if the count is then
-- a multiple of it, and has not stopped the loop; the interval is not 0.
pub fuzz_round-Paced :
    (host : Host) (opts : FuzzOptions) (rule_idx : ℕ) (st : FuzzState)
    → Holds (Paced opts st) (fuzz_round host opts rule_idx st)
unfolding fuzz_round
fuzz_round-Paced host opts rule_idx st =
    Holds-bind (Paced opts st) (Paced opts st) (count_round host opts st) _
      (count_round-Paced host opts st)
      (λ st1 p1.
        Holds-bind (ChosenSame st1) (Paced opts st) (choose_input host opts st1) _
          (choose_input-same host opts rule_idx st1)
          (λ chosen e1.
            Holds-bind (SameProgress chosen.after) (Paced opts st)
              (build_output host rule_idx chosen.after) _
              (build_output-same host opts rule_idx chosen.after)
              (λ st2 e2.
                Holds-bind (SameProgress st2) (Paced opts st) (save_for_tracer host opts chosen st2)
                  _ (save_for_tracer-same host opts rule_idx chosen st2)
                  (λ st3 e3.
                    Holds-bind (SameProgress st3) (Paced opts st) (run_target host st3) _
                      (run_target-same host opts rule_idx st3)
                      (λ st4 e4.
                        Holds-bind (SameProgress st4) (Paced opts st) (share_coverage host st4) _
                          (share_coverage-same host opts rule_idx st4)
                          (λ st5 e5.
                            Holds-map (SameProgress st5) (Paced opts st)
                              (keep_recording host (get_stats st4.cov) chosen.used_corpus st5)
                              (keep_recording-same host opts rule_idx (get_stats st4.cov)
                                chosen.used_corpus st5)
                              (λ st6 e6.
                                kept_pace opts st st1 st6 p1 (e6 ∙ e5 ∙ e4 ∙ e3 ∙ e2 ∙ e1))))))))
