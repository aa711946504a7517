-- ===== src/Fuzz/Main.antt =====
-- `main` of ws/libresmack_fuzz_main/src/main.cpp, with `Start`, `Stop` and `Join` of
-- ws/libresmack_fuzz/src/tracer.cpp. What main has other threads and processes do is a list of acts,
-- in the order in which it asks for them; what it sees of them when it wakes up is a `Glance`. A run
-- that gives none is one that has not ended. `shut_down` sets SHUTTING_DOWN, which the handlers of the
-- tracers read. Printing is left out.
pub mod WoundUp
mod Tests
use Prim.Native.String.{String}
use resmack.Prelude.{
  ℕ, zero, suc, ◌+◌, Bool, true, false, ◌&&◌, ◌||◌, List, [], ◌∷◌, ◌++◌, map, Option, none, some,
  ltb, leb, if◌then◌else◌,
}
use resmack.Prelude.Outcome.{Outcome, ok, fail, ◌>>=◌}
use resmack.Rand.{Rand}
use resmack.Manager.{RuleManager, init}
use resmack.Calc.{finalize}
use resmack.Build.Items.{count_up}
use resmack.Coverage.{CoverageData}
use resmack.Target.{TargetStats}
use resmack.Tracee.{Tracee}
use resmack.State.{MmapState}
use resmack.Fuzz.Options.{FuzzOptions, Libc, OptCode, parse_options}
use resmack.Fuzz.Handlers.{Files, Tools, dump_corpus}
use resmack.Fuzz.{Host, start_corpus, fuzz_process}

-- A tracer is given by its `child_num`, a process by its pid.
pub data Act : Type 0 where
  start_tracer start_monitor start_timeout_monitor clear_run : ℕ → Act
  kill_process join_monitor join_timeout_monitor : ℕ → Act
  start_status handle_sigint shut_down stop_status : Act

pub record Glance : Type 0 where
  pub shutting_down : Bool
  pub state : MmapState
  pub traced_pid : ℕ → Option ℕ

-- `Tracer::Start`
unfoldable pub tracer_start : ℕ → List Act
tracer_start idx = start_tracer idx ∷ start_monitor idx ∷ start_timeout_monitor idx ∷ []

-- `Tracer::Stop`, where -1 for a pid is none.
unfoldable pub tracer_stop : Bool → ℕ → Option ℕ → List Act
tracer_stop hard_stop idx none = clear_run idx ∷ []
tracer_stop hard_stop idx (some pid) =
    clear_run idx ∷ (if hard_stop && ltb 0 pid then kill_process pid ∷ [] else [])

-- `Tracer::Join`
unfoldable pub tracer_join : ℕ → List Act
tracer_join idx = join_monitor idx ∷ join_timeout_monitor idx ∷ []

-- The loops of main over the tracers.
unfoldable pub for_each : (ℕ → List Act) → List ℕ → List Act
for_each act [] = []
for_each act (idx ∷ rest) = act idx ++ for_each act rest

-- The test of the waiting loop.
unfoldable pub should_stop : FuzzOptions → Glance → Bool
should_stop opts glance =
    (ltb 0 opts.max_crashes && leb opts.max_crashes glance.state.metadata.crashes)
    || (ltb 0 opts.max_iters && leb opts.max_iters glance.state.metadata.iterations)
    || glance.shutting_down

unfoldable pub wait_loop : FuzzOptions → List ℕ → List Glance → Option (List Act)
unfolding should_stop for_each tracer_stop
wait_loop opts tracers [] = none
wait_loop opts tracers (glance ∷ later) =
    let rest = wait_loop opts tracers later in
    if should_stop opts glance
    then some (shut_down ∷ for_each (λ idx. tracer_stop true idx (glance.traced_pid idx)) tracers)
    else rest

-- What SHUTTING_DOWN is after `sigint_handler`.
unfoldable pub sigint_handler : Bool → Bool → Bool
sigint_handler in_main_process shutting_down = in_main_process || shutting_down

-- Where a fuzzing process is pinned.
unfoldable pub pinned_cpu : FuzzOptions → ℕ → ℕ → Option ℕ
pinned_cpu opts nproc idx = if opts.pin_cpus && ltb idx nproc then some idx else none

-- What main gets from elsewhere. `grammar_init` is ResmackGrammarInit where it is defined; `opened` is
-- the state as it is opened; the rest is what `FuzzLoop` takes.
pub record Setup : Type 0 where
  pub libc : Libc
  pub prog_name : String
  pub grammar_init : Option (RuleManager → ℕ × RuleManager)
  pub opened : String → MmapState
  pub path_text : String → List ℕ
  pub tools : Tools
  pub dump_rand : Rand
  pub fuel : ℕ
  pub host : Host
  pub meta_rand : Rand
  pub new_rand : ℕ → Rand
  pub blank : TargetStats
  pub cov : CoverageData
  pub cov_shared : CoverageData

pub record MainResult : Type 0 where
  pub exit_code : ℕ
  pub acts : List Act
  pub files : Files

-- From the launch of the tracers on.
unfoldable pub run_tracers : FuzzOptions → List Glance → Option (List Act)
unfolding wait_loop tracer_start tracer_join
run_tracers opts glances =
    let tracers = count_up 0 opts.nprocs in
    elim (wait_loop opts tracers glances) [
      | none ↦ none
      | some stopped ↦ some (
          (for_each tracer_start tracers ++ start_status ∷ handle_sigint ∷ [])
          ++ stopped
          ++ (for_each tracer_join tracers ++ shut_down ∷ stop_status ∷ []))
    ]

-- `FuzzLoop` for a process or, with --direct, for main itself.
unfoldable pub run_process :
    Setup → FuzzOptions → RuleManager → ℕ → MmapState → Option Tracee → Outcome Bool
run_process setup opts rules rule_idx state tracee =
    fuzz_process setup.fuel setup.host opts rules rule_idx setup.meta_rand setup.new_rand
      setup.blank state setup.cov setup.cov_shared tracee
    >>= λ ended. ok (elim ended [ none ↦ false | some st ↦ true ])

-- The part of main behind `rules.Finalize()`.
unfoldable pub with_rules :
    Setup → FuzzOptions → RuleManager → ℕ → List Glance → Files → Outcome (Option MainResult)
unfolding run_tracers run_process
with_rules setup opts rules rule_idx glances files =
    let opened = setup.opened opts.state_path in
    let state = record opened { corpus = start_corpus opts opened.corpus } in
    let dumped =
      dump_corpus setup.tools opts (setup.path_text opts.dump_corpus_path) rules rule_idx
        setup.dump_rand state.corpus files
      >>= λ files'. ok (some (record { exit_code = 0; acts = []; files = files' })) in
    let direct = run_process setup opts rules rule_idx state none >>= λ ended.
    ok (if ended then some (record { exit_code = 0; acts = []; files = files }) else none) in
    if opts.do_corpus_dump
    then dumped
    else if opts.run_direct
    then direct
    else ok (elim (run_tracers opts glances) [
      | none ↦ none
      | some acts ↦ some (record { exit_code = 0; acts = acts; files = files })
    ])

unfoldable pub main :
    Setup → List (OptCode × String) → List Glance → Files → Outcome (Option MainResult)
unfolding with_rules
main setup args glances files = parse_options setup.libc setup.prog_name args >>= λ parsed.
    let failed : Outcome (Option MainResult) =
      ok (some (record { exit_code = 1; acts = []; files = files })) in
    elim parsed [
      | none ↦ failed
      | some opts ↦ if opts.help then failed else elim setup.grammar_init [
        | none ↦ failed
        | some grammar ↦
            let (rule_idx, rules) = grammar init in
            finalize setup.tools.env.map_order setup.tools.env.calc_fuel rules >>= λ rules'.
            with_rules setup opts rules' rule_idx glances files
      ]
    ]
