-- ===== src/Fuzz/Handlers.antt =====
-- What the tracing process does for an input that crashed or timed out, and the dump of the corpus:
-- `HandleException`, `HandleTimeout` and `DumpCorpus` of ws/libresmack_fuzz_main/src/main.cpp. The files
-- are a list of paths with contents, none for a directory. Characters are their codes. strsignal and the
-- printing of an index are parameters, and writing does not fail.
use resmack.Prelude.{
  ℕ, ◌+◌, ◌%◌, ◌^◌, Bool, true, false, not, ◌&&◌, ◌||◌, List, [], ◌∷◌, ◌++◌, Option, none, some,
  leb, ◌==◌, if◌then◌else◌,
}
use resmack.Prelude.Outcome.{Outcome, Fault, ok, fail, ◌>>=◌}
use resmack.Rand.{Rand}
use resmack.Manager.{RuleManager}
use resmack.Build.Context.{Env, Ctx, new_ctx, set_replay}
use resmack.Build.{build, rules_build}
use resmack.Corpus.{Sorters, MmapCorpus, CorpusEntry}
use resmack.Corpus.Stats.{inc_unwanted}
use resmack.Corpus.Sync.{sync}
use resmack.Process.{SignalInfo}
use resmack.Tracee.{Tracee, AsanInfo, load_last_replay, get_asan_info}
use resmack.Tracer.{Tracer, CrashInfo}
use resmack.State.{MmapState, inc_num_iterations, inc_num_crashes_if_true}
use resmack.Fuzz.Options.{FuzzOptions}

abbrev pub Files : Type 0
Files = List (List ℕ × Option (List ℕ))

abbrev pub same_text : List ℕ → List ℕ → Bool
same_text [] [] = true
same_text [] (y ∷ ys) = false
same_text (x ∷ xs) [] = false
same_text (x ∷ xs) (y ∷ ys) = x == y && same_text xs ys

-- std::filesystem::exists
unfoldable pub exists : List ℕ → Files → Bool
exists path [] = false
exists path ((p, content) ∷ files) = same_text p path || exists path files

unfoldable pub write : List ℕ → List ℕ → Files → Files
write path content files = (path, some content) ∷ files

unfoldable pub make_directory : List ℕ → Files → Files
unfolding exists
make_directory path files = if exists path files then files else (path, none) ∷ files

-- The characters up to the terminator, for which strlen may look past the end.
unfoldable pub c_string : List ℕ → Outcome (List ℕ)
c_string [] = fail Fault.out_of_range
c_string (c ∷ s) = let rest = c_string s >>= λ t. ok (c ∷ t) in if c == 0 then ok [] else rest

-- The main process: what the handlers change.
pub record Main : Type 0 where
  pub shutting_down : Bool
  pub state : MmapState
  pub files : Files

pub record Tools : Type 0 where
  pub env : Env
  pub build_fuel : ℕ
  pub sorters : Sorters
  pub strsignal : ℕ → List ℕ
  pub to_string : ℕ → List ℕ
  pub sha1_hex : List ℕ → List ℕ

-- "/", ".asan.txt" and ".stack.txt"
abbrev pub slash : List ℕ
slash = 47 ∷ []

abbrev pub asan_suffix : List ℕ
asan_suffix = 46 ∷ 97 ∷ 115 ∷ 97 ∷ 110 ∷ 46 ∷ 116 ∷ 120 ∷ 116 ∷ []

abbrev pub stack_suffix : List ℕ
stack_suffix = 46 ∷ 115 ∷ 116 ∷ 97 ∷ 99 ∷ 107 ∷ 46 ∷ 116 ∷ 120 ∷ 116 ∷ []

abbrev pub crash_signal : SignalInfo → ℕ
crash_signal info = if info.term_signal == 0 then info.stop_signal else info.term_signal

-- The sanitizer's report beside the input.
unfoldable pub write_report : List ℕ → Option AsanInfo → Files → Outcome Files
unfolding write
write_report out_path none files = ok files
write_report out_path (some asan) files =
    c_string asan.report >>= λ report. ok (write (out_path ++ asan_suffix) report files)

-- The callback for `IncNumCrashesIfTrue`.
unfoldable pub save_crash :
    Tools → List ℕ → List ℕ → Tracee → CrashInfo → Bool → Files → Outcome (Bool × Files)
unfolding write
save_crash tools out_path output tracee info down files =
    let saved = write out_path output files in
    let stack_data =
      tools.strsignal (crash_signal info.signal_info) ++ 10 ∷ (info.minor_stack ++ 10 ∷ []) in
    let written = write_report out_path (get_asan_info tracee) saved >>= λ files'.
    ok (true, write (out_path ++ stack_suffix) stack_data files') in
    if down then ok (false, files) else if exists out_path files then ok (false, files) else written

-- The entries of the corpus from which the input was made.
unfoldable pub mark_unwanted : Tracee → MmapState → Outcome MmapState
mark_unwanted tracee st =
    inc_unwanted tracee.basic_shared.last_corpus_index1 st.corpus st.shared >>= λ p.
    inc_unwanted tracee.basic_shared.last_corpus_index2 p.0 p.1 >>= λ q.
    ok (record st { corpus = q.0; shared = q.1 })

unfoldable pub sync_corpus : Sorters → MmapState → Outcome MmapState
sync_corpus sorters st =
    sync sorters st.corpus st.shared >>= λ q. ok (record st { corpus = q.0; shared = q.1 })

-- The text that the saved recording gives, with a new generator.
unfoldable pub rebuild : Tools → RuleManager → ℕ → Rand → Tracee → Outcome (List ℕ)
rebuild tools rules rule_idx rand tracee = load_last_replay tracee [] >>= λ snapshot.
    rules_build tools.env (build tools.env tools.build_fuel) rule_idx false (
      set_replay (some snapshot)
        (new_ctx rules [] rand (tracee.basic_shared.last_max_depth % 2 ^ 32)))
    >>= λ built. ok (built.1.output)

-- The directory and the name of a crash.
abbrev pub crash_directory : List ℕ → CrashInfo → List ℕ
crash_directory crash_output info = crash_output ++ (slash ++ info.major_hash)

abbrev pub crash_path : List ℕ → CrashInfo → List ℕ
crash_path crash_output info = crash_directory crash_output info ++ (slash ++ info.minor_hash)

unfoldable pub handle_exception :
    Tools → FuzzOptions → List ℕ → RuleManager → ℕ → Rand → Tracer → Main → Outcome Main
unfolding mark_unwanted sync_corpus rebuild make_directory save_crash
handle_exception tools opts crash_output rules rule_idx rand t main =
    let info = t.last_crash in
    let handled = mark_unwanted t.tracee (inc_num_iterations 1 main.state) >>= λ st1.
    sync_corpus tools.sorters st1 >>= λ st2.
    rebuild tools rules rule_idx rand t.tracee >>= λ output.
    inc_num_crashes_if_true
      (save_crash tools (crash_path crash_output info) output t.tracee info main.shutting_down)
      (make_directory (crash_directory crash_output info) main.files) st2
    >>= λ q. ok (record {
      shutting_down =
          main.shutting_down
          || (not (opts.max_crashes == 0) && leb opts.max_crashes q.1.metadata.crashes);
      state = q.1;
      files = q.0;
    }) in
    if main.shutting_down then ok main else handled

unfoldable pub handle_timeout : Tools → Tracee → Main → Outcome Main
unfolding mark_unwanted sync_corpus
handle_timeout tools tracee main =
    let handled = sync_corpus tools.sorters (inc_num_iterations 1 main.state) >>= λ st1.
    mark_unwanted tracee st1 >>= λ st2. ok (record main { state = st2 }) in
    if main.shutting_down
    then ok main
    else if tracee.basic_shared.last_used_corpus
    then handled
    else ok main

-- The loop of `DumpCorpus` over the entries from number `i` on, with the context and the files.
unfoldable pub dump_entries :
    Tools → List ℕ → ℕ → ℕ → List CorpusEntry → Ctx → Files → Outcome Files
unfolding write
dump_entries tools dump_path rule_idx i [] ctx files = ok files
dump_entries tools dump_path rule_idx i (entry ∷ entries) ctx files =
    rules_build tools.env (build tools.env tools.build_fuel) rule_idx false
      (set_replay (some (entry.snapshot)) (record ctx { output = [] }))
    >>= λ built.
        let output = built.1.output in
        let out_path = dump_path ++ (slash ++ (tools.to_string i ++ 95 ∷ tools.sha1_hex output)) in
        dump_entries tools dump_path rule_idx (i + 1) entries (built.1)
          (if exists out_path files then files else write out_path output files)

unfoldable pub dump_corpus :
    Tools → FuzzOptions → List ℕ → RuleManager → ℕ → Rand → MmapCorpus → Files → Outcome Files
unfolding dump_entries make_directory
dump_corpus tools opts dump_path rules rule_idx rand c files =
    dump_entries tools dump_path rule_idx 0 c.snapshots
      (new_ctx rules [] rand (opts.max_depth % 2 ^ 32)) (make_directory dump_path files)
