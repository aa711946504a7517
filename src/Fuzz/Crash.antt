-- ===== src/Fuzz/Crash.antt =====
-- Counting crashes: `HandleException` of ws/libresmack_fuzz_main/src/main.cpp.
use mathlib.Core.Path.{subst, sym, ap, ◌∙◌}
use resmack.Prelude.{
  ℕ, ◌≡◌, ◌⊎◌, inl, inr, refl, Bool, true, false, ◌||◌, List, [], ◌∷◌, Option, none, some,
  Bool-cases, ==_refl,
}
use resmack.Prelude.Outcome.{ok, Holds, Holds-bind, Holds-after, Holds-if, Holds-map, Holds-else}
use resmack.Rand.{Rand}
use resmack.Manager.{RuleManager}
use resmack.Tracee.{Tracee, AsanInfo, get_asan_info}
use resmack.Corpus.{Sorters}
use resmack.Corpus.Stats.{inc_unwanted}
use resmack.Corpus.Sync.{sync}
use resmack.Tracer.{Tracer, CrashInfo}
use resmack.State.{MmapState, inc_num_iterations, inc_num_crashes_if_true}
use resmack.Fuzz.Options.{FuzzOptions}
use resmack.Fuzz.Handlers.{
  Files, Main, Tools, same_text, exists, write, c_string, save_crash, make_directory, crash_path,
  crash_directory, write_report, mark_unwanted, sync_corpus, rebuild, handle_exception,
  handle_timeout,
}

same_text_refl : (s : List ℕ) → same_text s s ≡ true
same_text_refl [] = refl
same_text_refl (x ∷ s) = rw (==_refl x) (same_text_refl s)

or_right : (b : Bool) → (b || true) ≡ true
or_right true = refl
or_right false = refl

exists_behind :
    (path p : List ℕ) (content : Option (List ℕ)) (files : Files)
    → exists path files ≡ true
    → exists path ((p, content) ∷ files) ≡ true
unfolding exists
exists_behind path p content files h = rw h (or_right (same_text p path))

-- Both the directory and the file of a crash are there.
abbrev pub IsSaved : List ℕ → CrashInfo → Files → Type 0
IsSaved out info files =
    (exists (crash_directory out info) files ≡ true) × (exists (crash_path out info) files ≡ true)

files_still_there :
    (out : List ℕ) (info : CrashInfo) (p : List ℕ) (content : Option (List ℕ)) (files : Files)
    → IsSaved out info files
    → IsSaved out info ((p, content) ∷ files)
files_still_there out info p content files h =
    (exists_behind _ p content files h.0, exists_behind _ p content files h.1)

exists_first :
    (path : List ℕ) (content : Option (List ℕ)) (files : Files)
    → exists path ((path, content) ∷ files) ≡ true
unfolding exists
exists_first path content files = rw (same_text_refl path) refl

make_directory-exists :
    (path : List ℕ) (files : Files) → exists path (make_directory path files) ≡ true
unfolding make_directory
make_directory-exists path files = elim (Bool-cases (exists path files)) [
  | inl there ↦ rw there there
  | inr missing ↦ rw missing (exists_first path none files)
]

module _ (out : List ℕ) (info : CrashInfo) where
  CrashSaved : Files → Type 0
  CrashSaved files = IsSaved out info files

  write_report-CrashSaved :
      (report : Option AsanInfo) (files : Files)
      → CrashSaved files
      → Holds CrashSaved (write_report (crash_path out info) report files)
  unfolding write_report CrashSaved
  write_report-CrashSaved none files h = h
  write_report-CrashSaved (some asan) files h =
      Holds-after CrashSaved (c_string asan.report) _
        (λ text. files_still_there out info _ (some text) files h)

  save_crash-CrashSaved :
      (tools : Tools) (output : List ℕ) (tracee : Tracee) (files : Files)
      → exists (crash_directory out info) files ≡ true
      → Holds
          (λ (p : Bool × Files). CrashSaved p.1)
          (save_crash tools (crash_path out info) output tracee info false files)
  unfolding save_crash CrashSaved
  save_crash-CrashSaved tools output tracee files dir =
      elim (Bool-cases (exists (crash_path out info) files)) [
        | inl there ↦ rw there (dir, there)
        | inr missing ↦ rw missing (
            Holds-bind CrashSaved (λ (p : Bool × Files). CrashSaved p.1)
              (write_report (crash_path out info) (get_asan_info tracee)
                (write (crash_path out info) output files))
              _
              (write_report-CrashSaved (get_asan_info tracee) _ (
                exists_behind _ (crash_path out info) (some output) files dir,
                exists_first (crash_path out info) (some output) files,
              ))
              (λ files' h. files_still_there out info _ _ files' h))
      ]

save_crash_again :
    (tools : Tools) (path output : List ℕ) (tracee : Tracee) (info : CrashInfo) (files : Files)
    → exists path files ≡ true
    → save_crash tools path output tracee info false files ≡ ok (false, files)
unfolding save_crash
save_crash_again tools path output tracee info files h = rw h refl

make_directory_again :
    (path : List ℕ) (files : Files) → exists path files ≡ true → make_directory path files ≡ files
unfolding make_directory
make_directory_again path files h = rw h refl

abbrev SameCrashes : MmapState → MmapState → Type 0
SameCrashes st st' = st'.metadata.crashes ≡ st.metadata.crashes

mark_unwanted-same :
    (tracee : Tracee) (st : MmapState) → Holds (SameCrashes st) (mark_unwanted tracee st)
unfolding mark_unwanted
mark_unwanted-same tracee st =
    Holds-after (SameCrashes st)
      (inc_unwanted tracee.basic_shared.last_corpus_index1 st.corpus st.shared) _
      (λ p.
        Holds-after (SameCrashes st) (inc_unwanted tracee.basic_shared.last_corpus_index2 p.0 p.1) _
          (λ q. refl))

sync_corpus-same :
    (sorters : Sorters) (st : MmapState) → Holds (SameCrashes st) (sync_corpus sorters st)
unfolding sync_corpus
sync_corpus-same sorters st =
    Holds-after (SameCrashes st) (sync sorters st.corpus st.shared) _ (λ q. refl)

module _ (tools : Tools) (opts : FuzzOptions) (out : List ℕ) (rules : RuleManager) (rule_idx : ℕ)
    (rand : Rand) (t : Tracer) (main : Main) where
  -- What follows on the marking of the entries, in three nested calls.
  handled-Holds :
      (P : Files → MmapState → Type 0)
      → ((output : List ℕ) (st : MmapState)
          → SameCrashes main.state st
          → Holds
              (λ (q : Files × MmapState). P q.0 q.1)
              (inc_num_crashes_if_true
                (save_crash tools
                  (crash_path out t.last_crash)
                  output
                  t.tracee
                  t.last_crash
                  main.shutting_down)
                (make_directory (crash_directory out t.last_crash) main.files)
                st))
      → main.shutting_down ≡ false
      → Holds
          (λ (m : Main). P m.files m.state)
          (handle_exception tools opts out rules rule_idx rand t main)
  unfolding handle_exception inc_num_iterations
  handled-Holds P k up =
      let Q : Main → Type 0 = λ m. P m.files m.state in
      let st0 = inc_num_iterations 1 main.state in
      Holds-else Q main.shutting_down (ok main) _ up (
        Holds-bind (SameCrashes main.state) Q (mark_unwanted t.tracee st0) _
          (mark_unwanted-same t.tracee st0)
          (λ st1 e1.
            Holds-bind (SameCrashes st1) Q (sync_corpus tools.sorters st1) _
              (sync_corpus-same tools.sorters st1)
              (λ st2 e2. Holds-after Q (rebuild tools rules rule_idx rand t.tracee) _ (λ output.
                Holds-bind (λ (q : Files × MmapState). P q.0 q.1) Q _ _ (k output st2 (e2 ∙ e1))
                  (λ q h. h)))))

  handled-IsSaved :
      main.shutting_down ≡ false
      → Holds
          (λ (m : Main). IsSaved out t.last_crash m.files)
          (handle_exception tools opts out rules rule_idx rand t main)
  unfolding inc_num_crashes_if_true CrashSaved
  handled-IsSaved up =
      let dir = crash_directory out t.last_crash in
      let Q : Files → MmapState → Type 0 = λ files st. IsSaved out t.last_crash files in
      handled-Holds Q
        (λ output st e. rw up (
          Holds-bind (λ (p : Bool × Files). IsSaved out t.last_crash p.1)
            (λ (q : Files × MmapState). Q q.0 q.1) _ _
            (save_crash-CrashSaved out t.last_crash tools output t.tracee
              (make_directory dir main.files) (make_directory-exists dir main.files))
            (λ p h. h)))
        up

  -- A crash whose files are there.
  handled_again :
      main.shutting_down ≡ false
      → IsSaved out t.last_crash main.files
      → Holds
          (λ (m : Main). (m.files ≡ main.files) × SameCrashes main.state m.state)
          (handle_exception tools opts out rules rule_idx rand t main)
  unfolding inc_num_crashes_if_true
  handled_again up saved =
      let dir = crash_directory out t.last_crash in
      let Q : Files → MmapState → Type 0 =
        λ files st. (files ≡ main.files) × SameCrashes main.state st in
      handled-Holds Q
        (λ output st e.
          rw
            (
              up,
              make_directory_again dir main.files saved.0,
              save_crash_again tools (crash_path out t.last_crash) output t.tracee t.last_crash
                  main.files saved.1,
            )
            (refl, e))
        up

-- What stays in the files while other crashes are saved.
write_report-IsSaved :
    (out : List ℕ) (info : CrashInfo) (path : List ℕ) (report : Option AsanInfo) (files : Files)
    → IsSaved out info files
    → Holds (IsSaved out info) (write_report path report files)
unfolding write_report
write_report-IsSaved out info path none files h = h
write_report-IsSaved out info path (some asan) files h =
    Holds-after (IsSaved out info) (c_string asan.report) _
      (λ text. files_still_there out info _ (some text) files h)

save_crash-IsSaved :
    (out : List ℕ) (info other : CrashInfo) (tools : Tools) (path output : List ℕ) (tracee : Tracee)
    (down : Bool) (files : Files)
    → IsSaved out info files
    → Holds
        (λ (p : Bool × Files). IsSaved out info p.1)
        (save_crash tools path output tracee other down files)
unfolding save_crash
save_crash-IsSaved out info other tools path output tracee true files h = h
save_crash-IsSaved out info other tools path output tracee false files h =
    Holds-if (λ (p : Bool × Files). IsSaved out info p.1) (exists path files) _ _ h
      (Holds-bind (IsSaved out info) (λ (p : Bool × Files). IsSaved out info p.1)
        (write_report path (get_asan_info tracee) (write path output files)) _
        (write_report-IsSaved out info path (get_asan_info tracee) (write path output files)
          (files_still_there out info path (some output) files h))
        (λ files' h'. files_still_there out info _ _ files' h'))

make_directory-IsSaved :
    (out : List ℕ) (info : CrashInfo) (path : List ℕ) (files : Files)
    → IsSaved out info files
    → IsSaved out info (make_directory path files)
unfolding make_directory
make_directory-IsSaved out info path files h = elim (Bool-cases (exists path files)) [
  | inl there ↦ rw there h
  | inr missing ↦ rw missing (files_still_there out info path none files h)
]

-- What the tracing threads and the main thread do, in any order: crashes and timeouts are handled, and
-- SHUTTING_DOWN is set.
pub data Later (tools : Tools) (opts : FuzzOptions) (out : List ℕ) (rules : RuleManager)
    (rule_idx : ℕ) (start : Main) : Main → Type 0 where
  now : Later tools opts out rules rule_idx start start
  other_crash :
      {main main' : Main} (rand : Rand) (t : Tracer)
      → Later tools opts out rules rule_idx start main
      → handle_exception tools opts out rules rule_idx rand t main ≡ ok main'
      → Later tools opts out rules rule_idx start main'
  timeout_handled :
      {main main' : Main} (tracee : Tracee)
      → Later tools opts out rules rule_idx start main
      → handle_timeout tools tracee main ≡ ok main'
      → Later tools opts out rules rule_idx start main'
  shut :
      {main : Main}
      → Later tools opts out rules rule_idx start main
      → Later tools opts out rules rule_idx start (record main { shutting_down = true })

-- The crash has been saved, or nothing is handled any more.
abbrev Settled : List ℕ → CrashInfo → Main → Type 0
Settled out info main = (main.shutting_down ≡ true) ⊎ IsSaved out info main.files

handled_down :
    (tools : Tools) (opts : FuzzOptions) (out : List ℕ) (rules : RuleManager) (rule_idx : ℕ)
    (rand : Rand) (t : Tracer) (main : Main)
    → main.shutting_down ≡ true
    → handle_exception tools opts out rules rule_idx rand t main ≡ ok main
unfolding handle_exception
handled_down tools opts out rules rule_idx rand t main down = rw down refl

ok_inj {ℓ} : {A : Type ℓ} {a b : A} → ok a ≡ ok b → a ≡ b
ok_inj e = cc

timeout-Settled :
    (tools : Tools) (out : List ℕ) (info : CrashInfo) (tracee : Tracee) (main : Main)
    → Settled out info main
    → Holds (Settled out info) (handle_timeout tools tracee main)
unfolding handle_timeout
timeout-Settled tools out info tracee main h =
    let P : Main → Type 0 = Settled out info in
    Holds-if P main.shutting_down (ok main) _ h (
      Holds-if P tracee.basic_shared.last_used_corpus _ (ok main)
        (Holds-after P (sync_corpus tools.sorters (inc_num_iterations 1 main.state)) _
          (λ st1. Holds-after P (mark_unwanted tracee st1) _ (λ st2. h)))
        h)

module _ (tools : Tools) (opts : FuzzOptions) (out : List ℕ) (rules : RuleManager)
    (rule_idx : ℕ) where
  exception-Settled :
      (info : CrashInfo) (rand : Rand) (t : Tracer) (main : Main)
      → Settled out info main
      → Holds (Settled out info) (handle_exception tools opts out rules rule_idx rand t main)
  unfolding inc_num_crashes_if_true
  exception-Settled info rand t main (inl down) =
      subst (Holds (Settled out info))
        (sym (handled_down tools opts out rules rule_idx rand t main down)) (inl down)
  exception-Settled info rand t main (inr saved) = elim (Bool-cases main.shutting_down) [
    | inl down ↦
        subst (Holds (Settled out info))
          (sym (handled_down tools opts out rules rule_idx rand t main down)) (inl down)
    | inr up ↦
        let Q : Files → MmapState → Type 0 = λ files st. IsSaved out info files in
        let dir = crash_directory out t.last_crash in
        Holds-map (λ (m : Main). IsSaved out info m.files) (Settled out info)
          (handle_exception tools opts out rules rule_idx rand t main)
          (handled-Holds tools opts out rules rule_idx rand t main Q
            (λ output st e.
              Holds-bind (λ (p : Bool × Files). IsSaved out info p.1)
                (λ (q : Files × MmapState). Q q.0 q.1) _ _
                (save_crash-IsSaved out info t.last_crash tools (crash_path out t.last_crash) output
                  t.tracee main.shutting_down (make_directory dir main.files)
                  (make_directory-IsSaved out info dir main.files saved))
                (λ p h. h))
            up)
          (λ m h. inr h)
  ]

  first-Settled :
      (rand : Rand) (t : Tracer) (main : Main)
      → Holds
          (Settled out t.last_crash)
          (handle_exception tools opts out rules rule_idx rand t main)
  first-Settled rand t main = elim (Bool-cases main.shutting_down) [
    | inl down ↦
        subst (Holds (Settled out t.last_crash))
          (sym (handled_down tools opts out rules rule_idx rand t main down)) (inl down)
    | inr up ↦
        Holds-map (λ (m : Main). IsSaved out t.last_crash m.files) (Settled out t.last_crash)
          (handle_exception tools opts out rules rule_idx rand t main)
          (handled-IsSaved tools opts out rules rule_idx rand t main up) (λ m h. inr h)
  ]

  Later-Settled :
      (info : CrashInfo) (start : Main)
      → Settled out info start
      → {main : Main} → Later tools opts out rules rule_idx start main
      → Settled out info main
  Later-Settled info start h now = h
  Later-Settled info start h (other_crash {main} rand t before ran) =
      subst (Holds (Settled out info)) ran
        (exception-Settled info rand t main (Later-Settled info start h before))
  Later-Settled info start h (timeout_handled {main} tracee before ran) =
      subst (Holds (Settled out info)) ran
        (timeout-Settled tools out info tracee main (Later-Settled info start h before))
  Later-Settled info start h (shut {main} before) = inl refl

-- A crash with the directory and the name of one that HandleException has handled before is not counted
-- and writes no file, whatever its input and report are, and whatever other crashes and timeouts have been
-- handled since.
pub crash_counted_once :
    (tools : Tools) (opts : FuzzOptions) (out : List ℕ) (rules : RuleManager) (rule_idx : ℕ)
    (rand rand' : Rand) (t t' : Tracer) (main start main' main'' : Main)
    → t'.last_crash.major_hash ≡ t.last_crash.major_hash
    → t'.last_crash.minor_hash ≡ t.last_crash.minor_hash
    → handle_exception tools opts out rules rule_idx rand t main ≡ ok start
    → Later tools opts out rules rule_idx start main'
    → handle_exception tools opts out rules rule_idx rand' t' main' ≡ ok main''
    → (main''.files ≡ main'.files) × (main''.state.metadata.crashes ≡ main'.state.metadata.crashes)
crash_counted_once tools opts out rules rule_idx rand rand' t t' main start main' main'' major minor
      h since h' =
    let before : Settled out t.last_crash main' =
      Later-Settled tools opts out rules rule_idx t.last_crash start
        (subst (Holds (Settled out t.last_crash)) h
          (first-Settled tools opts out rules rule_idx rand t main))
        since in
    let ignored : main'.shutting_down ≡ true → main' ≡ main'' =
      λ down. ok_inj (sym (handled_down tools opts out rules rule_idx rand' t' main' down) ∙ h') in
    let left_alone : main' ≡ main''
        → (main''.files ≡ main'.files)
          × (main''.state.metadata.crashes ≡ main'.state.metadata.crashes) =
      λ e.
        (sym (ap (λ (m : Main). m.files) e), sym (ap (λ (m : Main). m.state.metadata.crashes) e)) in
    elim (Bool-cases main'.shutting_down) [
      | inl down ↦ left_alone (ignored down)
      | inr up ↦ elim before [
        | inl down ↦ left_alone (ignored down)
        | inr saved ↦
            let same : IsSaved out t'.last_crash main'.files = rw (major, minor) saved in
            subst (Holds (λ (m : Main). (m.files ≡ main'.files) × SameCrashes main'.state m.state))
              h' (handled_again tools opts out rules rule_idx rand' t' main' up same)
      ]
    ]
