-- ===== src/Fuzz.antt =====
-- The loop of a fuzzing process: `FuzzLoop` of ws/libresmack_fuzz_main/src/main.cpp, over the models of
-- the parts that it calls. The locals of the loop and the objects that it works on are the fields of
-- `FuzzState`; `ctx` holds the output and `build_rand`. A step is one turn of the loop, which no other
-- process interrupts. What the turn takes from elsewhere is in `Host`: the program under test, the
-- clock, the seeds, and `NextInRangeGaussian`, which computes with floating-point numbers.
pub mod Options
pub mod Strategies
pub mod Rounds
pub mod Ends
pub mod Input
pub mod Direct
pub mod Handlers
pub mod Crash
pub mod Main
mod Tests
use resmack.Prelude.{
  ℕ, zero, suc, ◌+◌, ◌-◌, ◌%◌, ◌^◌, Bool, true, false, not, ◌&&◌, ◌||◌, List, [], ◌∷◌, ◌++◌, Option,
  none, some, ltb, leb, ◌==◌, if◌then◌else◌, length,
}
use resmack.Prelude.Int.{ℤ}
use resmack.Prelude.Outcome.{Outcome, Fault, ok, fail, or_fail, guard, ◌>>=◌, ◌>>◌}
use resmack.Rand.{
  Rand, RandState, RandSnapshot, maybe, reinit_seed, snapshot_clear, next, set_should_record,
}
use resmack.Build.Context.{Ctx, Env, set_replay, new_ctx}
use resmack.Build.{build, rules_build}
use resmack.Manager.{RuleManager}
use resmack.Mutate.{mutate_rand_snapshot}
use resmack.Corpus.{Sorters, FeedbackStats, MmapCorpus}
use resmack.Corpus.Strats.{set_strats}
use resmack.Corpus.Sync.{sync}
use resmack.Corpus.Add.{get_item, add_rand_snapshot_if_not_seen}
use resmack.Coverage
use resmack.Coverage.{CoverageData, get_stats}
use resmack.Tracee.{Tracee, save_last_corpus_info, save_last_replay, iter_start_at}
use resmack.Target.{
  SampleTypes, TargetStats, LaunchTimes, Program, mutate, generate, corpus, target, target_reset,
  sample, start_sample, stop_sample, clear, tick, launch, new_stats,
}
use resmack.State.{MmapState, sync_stats, inc_num_iterations, iters_since_new_item}
use Options.{FuzzOptions}

-- What the clock shows in one turn, for each sample and for the start of the iteration.
pub record RoundTimes : Type 0 where
  pub get_item_at : ℕ × ℕ
  pub mutate_at : ℕ × ℕ
  pub build_at : ℕ × ℕ
  pub target_at : ℕ × ℕ
  pub launch_times : LaunchTimes
  pub target_reset_at : ℕ × ℕ
  pub add_at : ℕ × ℕ
  pub iter_start : ℤ

-- The seeds and the clock are given by the number of the turn.
pub record Host : Type 0 where
  pub env : Env
  pub build_fuel : ℕ
  pub sorters : Sorters
  pub calc_hash : List ℕ → ℕ
  pub program : Program
  pub gaussian : Rand → ℕ → ℕ → ℕ × Rand
  pub meta_words : ℕ → RandState
  pub build_words : ℕ → RandState
  pub times : ℕ → RoundTimes

pub record FuzzState : Type 0 where
  pub shutting_down : Bool
  pub state : MmapState
  pub cov : CoverageData
  pub cov_shared : CoverageData
  pub tracee : Option Tracee
  pub meta_rand : Rand
  pub ctx : Ctx
  pub stats : TargetStats
  pub mutated_replay : List RandSnapshot
  pub counts : ℕ
  pub past_create_threshhold : Bool

-- The test at the head of the loop.
unfoldable pub reached_max : FuzzOptions → MmapState → Bool
reached_max opts st =
    (ltb 0 opts.max_iters && leb opts.max_iters st.metadata.iterations)
    || (ltb 0 opts.max_crashes && leb opts.max_crashes st.metadata.crashes)

-- New seeds once the corpus has not grown for `create_threshhold` iterations.
unfoldable pub note_threshhold : Host → FuzzOptions → FuzzState → FuzzState
note_threshhold host opts st =
    let past = ltb opts.create_threshhold (iters_since_new_item st.state) in
    let reseed = past && not st.past_create_threshhold in
    record st {
      meta_rand =
          if reseed then reinit_seed st.meta_rand (host.meta_words st.counts) else st.meta_rand;
      ctx = record (st.ctx) {
        rand = if reseed then reinit_seed st.ctx.rand (host.build_words st.counts) else st.ctx.rand;
      };
      past_create_threshhold = past;
    }

-- The counting of a turn, up to `stats.Tick()`.
unfoldable pub count_round : Host → FuzzOptions → FuzzState → Outcome FuzzState
unfolding note_threshhold
count_round host opts st0 =
    let st = record st0 { counts = (st0.counts + 1) % 2 ^ 64 } in
    let synced =
      sync_stats host.sorters st.stats (inc_num_iterations opts.stats_interval st.state)
      >>= λ shared.
          ok (note_threshhold host opts (record st { state = shared; stats = clear st.stats })) in
    guard (not (opts.stats_interval == 0)) Fault.div_by_zero
    >> (if st.counts % opts.stats_interval == 0 then synced else ok st)
    >>= λ st1. ok (record st1 { stats = tick st1.stats })

-- The choice of an input: what it leaves, `used_corpus` and the indices of the recordings.
pub record Chosen : Type 0 where
  pub after : FuzzState
  pub used_corpus : Bool
  pub last_corpus_idx1 : ℕ
  pub last_corpus_idx2 : ℕ

-- A new input, of a depth from the generator.
unfoldable pub create_input : Host → FuzzOptions → FuzzState → Chosen
create_input host opts st =
    let (depth, r) = host.gaussian st.meta_rand 1 (opts.max_depth % 2 ^ 32) in
    record {
      after = record st {
        meta_rand = r;
        ctx = record (set_replay none st.ctx) { max_depth = depth };
      };
      used_corpus = false;
      last_corpus_idx1 = 0;
      last_corpus_idx2 = 0;
    }

-- A recording of the corpus, mutated. `MutateRandSnapshot` takes the depth as a uint32_t.
unfoldable pub mutate_input : Host → FuzzOptions → FuzzState → Outcome Chosen
mutate_input host opts st =
    get_item host.sorters st.meta_rand st.state.corpus st.state.shared >>= λ q.
    let (replay, c, m, r) = q in
    let times = host.times st.counts in
    mutate_rand_snapshot r replay (opts.max_depth % 2 ^ 32) >>= λ p.
    let (mutated, r') = p in
    ok (record {
      after = record st {
        state = record (st.state) { corpus = c; shared = m };
        meta_rand = r';
        mutated_replay = mutated;
        ctx = set_replay (some mutated) st.ctx;
        stats = sample mutate times.mutate_at (sample corpus times.get_item_at st.stats);
      };
      used_corpus = true;
      last_corpus_idx1 = c.last_item1_one_based_idx;
      last_corpus_idx2 = c.last_item2_one_based_idx;
    })

unfoldable pub choose_input : Host → FuzzOptions → FuzzState → Outcome Chosen
unfolding create_input mutate_input
choose_input host opts st =
    let (heads, r) = maybe st.meta_rand in
    let tossed = record st { meta_rand = r } in
    if length st.state.corpus.snapshots == 0
    then ok (create_input host opts st)
    else if not st.past_create_threshhold
    then mutate_input host opts st
    else if heads
    then ok (create_input host opts tossed)
    else mutate_input host opts tossed

-- `Rules::Build` into an empty output, recorded from the start.
unfoldable pub build_output : Host → ℕ → FuzzState → Outcome FuzzState
build_output host rule_idx st =
    rules_build host.env (build host.env host.build_fuel) rule_idx false
      (record (st.ctx) { output = []; rand = snapshot_clear st.ctx.rand })
    >>= λ built. ok (record st {
      ctx = built.1;
      stats = sample generate (host.times st.counts).build_at st.stats;
    })

-- What the tracing process is to know of the input. Without a tracee this reads through null.
unfoldable pub save_for_tracer : Host → FuzzOptions → Chosen → FuzzState → Outcome FuzzState
save_for_tracer host opts chosen st = or_fail st.tracee Fault.null_deref >>= λ t.
    let (saved, t1) = save_last_replay st.mutated_replay (
      save_last_corpus_info chosen.used_corpus chosen.last_corpus_idx1 chosen.last_corpus_idx2
        opts.max_depth t) in
    saved >> ok (record st { tracee = some (iter_start_at (host.times st.counts).iter_start t1) })

-- The run of the program, between the samples TARGET and TARGET_RESET.
unfoldable pub run_target : Host → FuzzState → Outcome FuzzState
run_target host st =
    let times = host.times st.counts in
    launch times.launch_times host.calc_hash host.program st.ctx.output
      (start_sample target times.target_at.0 st.stats) st.cov st.cov_shared
    >>= λ q.
        let (stats, d, s) = q in
        ok (record st {
          stats =
              sample target_reset times.target_reset_at
                (stop_sample target times.target_at.1 stats);
          cov = d;
          cov_shared = s;
        })

-- `feedback->Sync()` where there was new coverage.
unfoldable pub share_coverage : Host → FuzzState → Outcome FuzzState
share_coverage host st =
    let synced = Coverage.sync host.calc_hash st.cov st.cov_shared >>= λ q.
    ok (record st { cov = q.0; cov_shared = q.1 }) in
    if (get_stats st.cov).new_coverage then synced else ok st

-- The recording of the build is kept where the program accepts the input and it reached something new.
-- The statistics of the feedback were taken before the last `Sync`.
unfoldable pub keep_recording : Host → FeedbackStats → Bool → FuzzState → Outcome FuzzState
keep_recording host feedback used_corpus st =
    let added =
      add_rand_snapshot_if_not_seen host.sorters st.state.metadata.iterations st.ctx.rand.snapshots
        feedback used_corpus st.state.corpus st.state.shared
      >>= λ q.
          let (is_added, c, m) = q in
          ok (record st {
            state = record (st.state) { corpus = c; shared = m };
            past_create_threshhold = if is_added then false else st.past_create_threshhold;
          }) in
    (if st.stats.valid && feedback.new_coverage then added else ok st) >>= λ st1.
    ok (record st1 { stats = sample corpus (host.times st1.counts).add_at st1.stats })

-- One turn behind the test at its head.
unfoldable pub fuzz_round : Host → FuzzOptions → ℕ → FuzzState → Outcome FuzzState
unfolding count_round choose_input build_output save_for_tracer run_target share_coverage
    keep_recording
fuzz_round host opts rule_idx st0 = do
  st1 ← count_round host opts st0
  chosen ← choose_input host opts st1
  st2 ← build_output host rule_idx chosen.after
  st3 ← save_for_tracer host opts chosen st2
  st4 ← run_target host st3
  st5 ← share_coverage host st4
  keep_recording host (get_stats st4.cov) chosen.used_corpus st5

-- What `FuzzLoop` does before its loop, where `Rand()` gives `meta_rand`, `Rand(seed)` is `new_rand`
-- and `TargetStats` holds `blank` before it is constructed. The second draw is for the time to sleep.
unfoldable pub enter_loop :
    Host
    → FuzzOptions
    → RuleManager
    → Rand
    → (ℕ → Rand)
    → TargetStats
    → MmapState
    → CoverageData
    → CoverageData
    → Option Tracee
    → Outcome FuzzState
enter_loop host opts rules meta_rand new_rand blank st d s tracee =
    let (seed, r1) = next meta_rand in
    let (nap, r2) = next r1 in
    let build_rand = set_should_record (new_rand seed) true in
    sync host.sorters st.corpus st.shared >>= λ q. Coverage.sync host.calc_hash d s >>= λ p.
    ok (record {
      shutting_down = false;
      state = record st { corpus = q.0; shared = q.1 };
      cov = p.0;
      cov_shared = p.1;
      tracee = tracee;
      meta_rand = r2;
      ctx = new_ctx rules [] build_rand (opts.max_depth % 2 ^ 32);
      stats = new_stats blank opts.stats_interval;
      mutated_replay = [];
      counts = 0;
      past_create_threshhold = true;
    })

-- The `while` loop, with fuel for its turns; none is a run that has not ended by then.
unfoldable pub fuzz_loop : ℕ → Host → FuzzOptions → ℕ → FuzzState → Outcome (Option FuzzState)
unfolding fuzz_round
fuzz_loop zero host opts rule_idx st =
    if st.shutting_down
    then ok (some st)
    else if reached_max opts st.state
    then ok (some (record st { shutting_down = true }))
    else ok none
fuzz_loop (suc fuel) host opts rule_idx st =
    let further = fuzz_round host opts rule_idx st >>= fuzz_loop fuel host opts rule_idx in
    if st.shutting_down
    then ok (some st)
    else if reached_max opts st.state
    then ok (some (record st { shutting_down = true }))
    else further

-- `FuzzLoop`
unfoldable pub fuzz_process :
    ℕ
    → Host
    → FuzzOptions
    → RuleManager
    → ℕ
    → Rand
    → (ℕ → Rand)
    → TargetStats
    → MmapState
    → CoverageData
    → CoverageData
    → Option Tracee
    → Outcome (Option FuzzState)
unfolding enter_loop
fuzz_process fuel host opts rules rule_idx meta_rand new_rand blank st d s tracee =
    enter_loop host opts rules meta_rand new_rand blank st d s tracee
    >>= fuzz_loop fuel host opts rule_idx

-- What `main` makes of the corpus before it dumps it or starts to fuzz.
unfoldable pub start_corpus : FuzzOptions → MmapCorpus → MmapCorpus
start_corpus opts c =
    let c1 = record c { corpus_decay = opts.corpus_decay } in
    if opts.corpus_strats == 0 then c1 else set_strats opts.corpus_strats c1
