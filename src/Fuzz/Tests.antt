-- ===== src/Fuzz/Tests.antt =====
-- Turns of the loop of ws/libresmack_fuzz_main/src/main.cpp with a grammar of one rule and an empty
-- corpus, and two crashes with the same stacks.
use resmack.Prelude.{
  ℕ, ◌≡◌, ◌≢◌, inl, refl, Bool, true, false, [], ◌∷◌, Option, none, some, length, arith, replicate,
}
use resmack.Prelude.Int.{pos}
use resmack.Prelude.Outcome.{Outcome, ok, fail, Holds}
use resmack.Rand.{
  Rand, RandState, RandSnapshot, snapshot_clear, snapshot_state, set_state, maybe, next,
  next_result, next_state, rotl,
}
use resmack.Item.{raw, of_list}
use resmack.Item.Rule.{choose, pick_index}
use resmack.Manager.{RuleManager, get_any_rule, get_rule}
use resmack.Build.Context.{
  Env, null, new_ctx, set_replay, do_shortest, maybe_do_rand_replay, maybe_undo_rand_replay, due,
  flush_pre_post, build_post_items,
}
use resmack.Build.Items.{build_rule, build_rule_in, build_or, record_snapshot, finish_rule}
use resmack.Build.{build, rules_build}
use resmack.Corpus.{MmapCorpus, Sorters, strat_least_recent}
use resmack.Corpus.{sorteds_resort}
use resmack.Corpus.Stats.{counters_loop, sync_counters_inner, inc_unwanted}
use resmack.Corpus.Sync.{sync, sync_counters}
use resmack.Corpus.Strats.{set_strats}
use resmack.Coverage.{CoverageData, fpo_start, fpo_stop, get_stats}
use resmack.Tracee.{
  Tracee, save_last_replay, save_last_corpus_info, write_states, iter_start_at, load_last_replay,
  read_states, get_asan_info,
}
use resmack.Target.{clear, tick, launch, sample, start_sample, stop_sample, trace_all}
use resmack.State.{
  MmapState, sync_stats, inc_num_iterations, iters_since_new_item, inc_num_crashes_if_true,
  inc_num_crashes,
}
use resmack.Process.{crash}
use resmack.Tracer.{Tracer}
use resmack.Fuzz.Handlers.{
  Main, Tools, handle_exception, mark_unwanted, sync_corpus, rebuild, make_directory, exists,
  save_crash, write_report, write,
}
use resmack.Fuzz.Direct.{direct_never_returns}
use resmack.Fuzz.Crash.{crash_counted_once, now, other_crash}
use resmack.Fuzz.Options.{FuzzOptions, Libc, opt_strat, parse_loop}
use resmack.Fuzz.Strategies.{named_strategy_chosen}
use resmack.Fuzz.{
  Host, FuzzState, RoundTimes, fuzz_loop, fuzz_round, reached_max, count_round, note_threshhold,
  run_target, share_coverage, keep_recording, choose_input, create_input, build_output,
  save_for_tracer,
}
use resmack.Fuzz.Ends.{Ended, loop_ends}
use resmack.Fuzz.Input.{Reloads, prepare, created_leaves_old_replay}

abbrev words : RandState
words = record { s0 = 7; s1 = 11; s2 = 13; s3 = 17 }

abbrev pub seeded : Rand
seeded = record { s = words; snapshots = []; should_record = true; use_last_gaussian = false }

abbrev snap : ℕ → RandSnapshot
snap rule = record { ref_depth = 0; max_depth = 10; rule_idx = rule; state = words }

abbrev pub grammar : RuleManager
grammar = record {
  names = record { idx_to_name = (0, "start") ∷ []; name_to_idx = ("start", 0) ∷ [] };
  top = record {
    finalized = true;
    rules =
        some (record {
          items = of_list (raw (b'a' ∷ []) ∷ []);
          choices = record { choice_indices = 0 ∷ []; shortest_indices = 0 ∷ []; keep = false };
        })
        ∷ [];
  };
  parents = [];
}

abbrev env : Env
env = record { format_int = λ n. []; map_order = λ m. m; calc_fuel = 10 }

abbrev unsorted : Sorters
unsorted = record {
  by_direct_descendants = λ es l. l;
  by_descendants = λ es l. l;
  by_ancestors = λ es l. l;
  by_feedback = λ es l. l;
}

abbrev midnight : RoundTimes
midnight = record {
  get_item_at = (0, 0);
  mutate_at = (0, 0);
  build_at = (0, 0);
  target_at = (0, 0);
  launch_times = record { fpo_start_at = (0, 0); test_at = (0, 0); fpo_stop_at = (0, 0) };
  target_reset_at = (0, 0);
  add_at = (0, 0);
  iter_start = pos 0;
}

-- The program passes no guard and returns 0.
abbrev pub host : Host
host = record {
  env = env;
  build_fuel = 3;
  sorters = unsorted;
  calc_hash = length;
  program = λ input. ok ([], pos 0);
  gaussian = λ r low high. (high, r);
  meta_words = λ n. words;
  build_words = λ n. words;
  times = λ n. midnight;
}

abbrev pub opts : FuzzOptions
opts = record {
  help = false;
  nprocs = 1;
  max_depth = 10;
  max_iters = 2;
  max_crashes = 0;
  show_stats = false;
  mute_stdio = true;
  print_interval = 0;
  stats_interval = 1;
  crash_output = "crashes";
  create_threshhold = 100;
  dump_corpus_path = "/dev/null";
  do_corpus_dump = false;
  corpus_strats = 0;
  run_direct = false;
  state_path = "state";
  pin_cpus = true;
  corpus_decay = 100;
}

abbrev pub empty : CoverageData
empty = record { fpo_saw_new = false; hash = 0; num_flags = 0; hit_flags = 0; flags = [] }

abbrev tracee : Tracee
tracee = record {
  idx = 0;
  basic_shared = record {
    iter_start = pos 0;
    lifetime_start = pos 0;
    last_corpus_index1 = 0;
    last_corpus_index2 = 0;
    last_max_depth = 0;
    last_used_corpus = false;
    num_states = 0;
    states = replicate 4 (snap 9);
  };
  asan_shared = record { exists = false; major_hash = []; minor_hash = []; report = 0 ∷ [] };
}

abbrev corpus : MmapCorpus
corpus = record {
  strats = 0;
  strat_handlers = [];
  seen_keys = [];
  snapshots = [];
  most_direct_descendants_desc = [];
  most_descendants_desc = [];
  most_ancestors_desc = [];
  most_feedback = [];
  next_item_index = 0;
  first_item = some 0;
  next_item = some 0;
  last_updated_seq = 0;
  last_reorg_seq = 0;
  last_item1_one_based_idx = 0;
  last_item2_one_based_idx = 0;
  corpus_decay = 100;
  last_discovered_iteration = 0;
}

abbrev pub state : MmapState
state = record {
  metadata = record { iterations = 0; crashes = 0; stats = λ type. 0 };
  corpus = corpus;
  shared = record { updated_seq = 0; reorg_seq = 0; num_entries = 0; items = [] };
}

abbrev pub started : FuzzState
started = record {
  shutting_down = false;
  state = state;
  cov = empty;
  cov_shared = empty;
  tracee = some tracee;
  meta_rand = seeded;
  ctx = record {
    rules = grammar;
    pre_output = null;
    output = [];
    rand = seeded;
    ref_depth = 0;
    max_depth = 10;
    post_items = [];
    captures = [];
    replay = none;
    replay_idx = 0;
  };
  stats = record {
    exit_code = pos 0;
    timedout = false;
    crashed = false;
    valid = false;
    start = λ type. 0;
    duration = λ type. 0;
    stats_sample_interval = 1;
    sample_ticks = 0;
  };
  mutated_replay = snap 3 ∷ snap 4 ∷ [];
  counts = 0;
  past_create_threshhold = true;
}

loop_ends_example : Holds Ended (fuzz_loop 3 host opts 0 started)
loop_ends_example =
    loop_ends host opts 0 (omega arith) (omega arith) 3 started (omega arith) (omega arith)

abbrev value_or {ℓ} : {A : Type ℓ} → A → Outcome A → A
value_or a (ok b) = b
value_or a (fail e) = a

prepares : prepare host opts 0 started ≡ ok (value_or started (prepare host opts 0 started))
unfolding prepare choose_input create_input build_output save_for_tracer rules_build set_replay
    get_any_rule get_rule build build_rule build_rule_in build_or choose pick_index do_shortest
    record_snapshot snapshot_state maybe_do_rand_replay maybe_undo_rand_replay due snapshot_clear
    finish_rule flush_pre_post build_post_items save_last_replay save_last_corpus_info write_states
    iter_start_at
prepares = refl

created_leaves_old_replay_example :
    Reloads (snap 3 ∷ snap 4 ∷ []) [] (value_or started (prepare host opts 0 started))
created_leaves_old_replay_example =
    created_leaves_old_replay host opts 0 started (value_or started (prepare host opts 0 started))
      tracee [] (inl refl) refl (omega arith) (omega arith) prepares

abbrev libc : Libc
libc = record { absolute = λ s. s; strtoull = λ s. 0; stof = λ s. ok 0 }

named_strategy_chosen_example :
    (opts' : FuzzOptions) × (parse_loop libc ((opt_strat, "LEAST_RECENT") ∷ []) opts
      ≡ ok (some opts'))
    × ((set_strats opts'.corpus_strats corpus).strat_handlers ≡ strat_least_recent ∷ [])
named_strategy_chosen_example = named_strategy_chosen libc opts corpus strat_least_recent refl refl

abbrev stopped : Outcome (Option FuzzState) → Bool
stopped (ok (some st)) = st.shutting_down
stopped (ok none) = false
stopped (fail e) = false

-- The two turns return.
loop_returns : stopped (fuzz_loop 3 host opts 0 started) ≡ true
unfolding fuzz_loop fuzz_round reached_max count_round sync_stats inc_num_iterations sync_counters
    sync_counters_inner counters_loop sorteds_resort note_threshhold iters_since_new_item clear tick
    choose_input create_input build_output save_for_tracer rules_build set_replay get_any_rule
    get_rule build build_rule build_rule_in build_or choose pick_index do_shortest record_snapshot
    snapshot_state maybe_do_rand_replay maybe_undo_rand_replay due snapshot_clear finish_rule
    flush_pre_post build_post_items save_last_replay save_last_corpus_info write_states
    iter_start_at run_target launch sample start_sample stop_sample trace_all fpo_start fpo_stop
    share_coverage get_stats keep_recording maybe next next_result next_state rotl
loop_returns = refl

abbrev pub tools : Tools
tools = record {
  env = env;
  build_fuel = 3;
  sorters = unsorted;
  strsignal = λ n. b'S' ∷ [];
  to_string = λ n. b'0' ∷ [];
  sha1_hex = λ s. s;
}

-- A crash with an input and a name of its own.
abbrev crashed : ℕ → ℕ → Tracer
crashed n name = record {
  tracee = record tracee { basic_shared = record (tracee.basic_shared) { num_states = n } };
  traced_pid = some 7;
  last_crash = record {
    crashed = true;
    signal_info = record {
      exit_reason = crash;
      stopped = true;
      exited = false;
      signaled = false;
      exit_status = 0;
      stop_signal = 11;
      term_signal = 0;
    };
    major_stack = b'f' ∷ [];
    minor_stack = b'f' ∷ [];
    major_hash = b'1' ∷ [];
    minor_hash = name ∷ [];
  };
}

abbrev before : Main
before = record { shutting_down = false; state = state; files = [] }

abbrev handled : Tracer → Main → Outcome Main
handled t m = handle_exception tools opts (b'c' ∷ []) grammar 0 seeded t m

abbrev once : Main
once = value_or before (handled (crashed 0 b'2') before)

-- Another crash has been handled in between.
abbrev other : Main
other = value_or before (handled (crashed 1 b'3') once)

abbrev twice : Main
twice = value_or before (handled (crashed 2 b'2') other)

handles : handled (crashed 0 b'2') before ≡ ok once
unfolding handle_exception mark_unwanted inc_unwanted inc_num_iterations sync_corpus sync rebuild
    load_last_replay read_states new_ctx set_replay rules_build get_any_rule get_rule build
    build_rule build_rule_in build_or choose pick_index do_shortest record_snapshot snapshot_state
    maybe_do_rand_replay maybe_undo_rand_replay due set_state finish_rule flush_pre_post
    build_post_items inc_num_crashes_if_true inc_num_crashes make_directory exists save_crash
    write_report write get_asan_info
handles = refl

handles_other : handled (crashed 1 b'3') once ≡ ok other
unfolding handle_exception mark_unwanted inc_unwanted inc_num_iterations sync_corpus sync rebuild
    load_last_replay read_states new_ctx set_replay rules_build get_any_rule get_rule build
    build_rule build_rule_in build_or choose pick_index do_shortest record_snapshot snapshot_state
    maybe_do_rand_replay maybe_undo_rand_replay due set_state finish_rule flush_pre_post
    build_post_items inc_num_crashes_if_true inc_num_crashes make_directory exists save_crash
    write_report write get_asan_info
handles_other = refl

handles_again : handled (crashed 2 b'2') other ≡ ok twice
unfolding handle_exception mark_unwanted inc_unwanted inc_num_iterations sync_corpus sync rebuild
    load_last_replay read_states new_ctx set_replay rules_build get_any_rule get_rule build
    build_rule build_rule_in build_or choose pick_index do_shortest record_snapshot snapshot_state
    maybe_do_rand_replay maybe_undo_rand_replay due set_state finish_rule flush_pre_post
    build_post_items inc_num_crashes_if_true inc_num_crashes make_directory exists save_crash
    write_report write get_asan_info
handles_again = refl

counts : other.state.metadata.crashes ≡ 2
unfolding handle_exception mark_unwanted inc_unwanted inc_num_iterations sync_corpus sync rebuild
    load_last_replay read_states new_ctx set_replay rules_build get_any_rule get_rule build
    build_rule build_rule_in build_or choose pick_index do_shortest record_snapshot snapshot_state
    maybe_do_rand_replay maybe_undo_rand_replay due set_state finish_rule flush_pre_post
    build_post_items inc_num_crashes_if_true inc_num_crashes make_directory exists save_crash
    write_report write get_asan_info
counts = refl

crash_counted_once_example :
    (twice.files ≡ other.files) × (twice.state.metadata.crashes ≡ other.state.metadata.crashes)
crash_counted_once_example =
    crash_counted_once tools opts (b'c' ∷ []) grammar 0 seeded seeded (crashed 0 b'2')
      (crashed 2 b'2') before once other twice refl refl handles
      (other_crash seeded (crashed 1 b'3') now handles_other) handles_again

direct_never_returns_example :
    fuzz_round host opts 0 (record started { tracee = none }) ≢ ok started
direct_never_returns_example =
    direct_never_returns host opts 0 (record started { tracee = none }) started refl
