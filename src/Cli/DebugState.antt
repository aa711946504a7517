-- ===== src/Cli/DebugState.antt =====
-- `resmack debug-state`: ws/resmack/src/debug_state.cpp, on the layout of the state file
-- (ws/libresmack_fuzz/include/resmack/fuzz/states/mmap.hpp, state.hpp). What is printed is a record of the
-- numbers in it; a double is the number of its bits. Files have a size that is a multiple of 4 bytes.
use Prim.Native.String.{String}
use text.Mathlib.Text.{◌==◌ as str_eq}
use resmack.Prelude.{
  ℕ, zero, suc, ◌*◌, ◌/◌, List, [], ◌∷◌, Option, none, some, ltb, ◌==◌, if◌then◌else◌, length,
  get_elem?, take,
}
use resmack.Prelude.Outcome.{Outcome, ok, ◌>>=◌}
use resmack.Corpus.{SharedCorpus}
use resmack.Layout.{Stored, put64, get64, get32, read_items, write_items}
use resmack.Cli.Compile.{Getopt, Code, flagged, short, not_zero}

-- The two words of each of `n` numbers.
unfoldable pub get_numbers : ℕ → List ℕ → Outcome (List ℕ × List ℕ)
get_numbers zero mem = ok ([], mem)
get_numbers (suc n) mem = do (x, m1) ← get64 mem; (xs, rest) ← get_numbers n m1; ok (x ∷ xs, rest)

unfoldable pub put_numbers : List ℕ → List ℕ → List ℕ
put_numbers [] rest = rest
put_numbers (x ∷ xs) rest = put64 x (put_numbers xs rest)

pub record PrintedCorpus : Type 0 where
  pub updated : ℕ
  pub reorg : ℕ
  pub entries : ℕ
  pub stored : List Stored

pub record Printed : Type 0 where
  pub total_iterations : ℕ
  pub total_crashes : ℕ
  pub durations : List ℕ
  pub reserved : List ℕ
  pub printed_corpus : PrintedCorpus

unfoldable pub debug_corpus : List ℕ → Outcome PrintedCorpus
debug_corpus mem = do
  (updated, m1) ← get32 mem
  (reorg, m2) ← get32 m1
  (entries, m3) ← get32 m2
  (items, rest) ← read_items entries m3
  ok (record { updated = updated; reorg = reorg; entries = entries; stored = items })

unfoldable pub debug_state : List ℕ → Outcome Printed
unfolding debug_corpus
debug_state mem = do
  (iterations, m1) ← get64 mem
  (crashes, m2) ← get64 m1
  (durations, m3) ← get_numbers 6 m2
  (reserved, m4) ← get_numbers 8 m3
  corpus ← debug_corpus m4
  ok (record {
    total_iterations = iterations;
    total_crashes = crashes;
    durations = durations;
    reserved = reserved;
    printed_corpus = corpus;
  })

-- The memory of a state with this corpus: `StateMetadata`, `CorpusMetadata` and the items.
unfoldable pub write_state : ℕ → ℕ → List ℕ → List ℕ → SharedCorpus → List ℕ → List ℕ
write_state iterations crashes durations reserved m rest = put64 iterations (
    put64 crashes (
      put_numbers durations (
        put_numbers reserved
          (m.updated_seq ∷ m.reorg_seq ∷ m.num_entries ∷ write_items m.items rest))))

-- stat and fopen with fread, each none where it fails: the size in bytes and the words of the file.
pub record Files : Type 0 where
  pub stat_size : String → Option ℕ
  pub contents : String → Option (List ℕ)

unfoldable pub debug_option : Code → ℕ → ℕ
debug_option (flagged name) help = if str_eq name "help" then b'h' else help
debug_option (short c) help = if c == b'h' then 1 else help

unfoldable pub debug_options : List Code → ℕ → ℕ
unfolding debug_option
debug_options [] help = help
debug_options (c ∷ cs) help = debug_options cs (debug_option c help)

-- `Run` from the reading of the file on, `size` being the size that stat has given.
unfoldable pub debug_file : ℕ → List ℕ → Outcome (Option Printed × ℕ)
unfolding debug_state
debug_file size words =
    let shown : Outcome (Option Printed × ℕ) =
      debug_state (take (size / 4) words) >>= λ printed. ok (some printed, 0) in
    if ltb (4 * length words) size then ok (none, 1) else shown

-- `Run`: what is printed of the state, and the exit code.
unfoldable pub debug_run : Getopt → Files → List String → Outcome (Option Printed × ℕ)
unfolding debug_options debug_file
debug_run getopt files argv =
    let parsed = getopt.parse "h" ("help" ∷ []) argv in
    let opened : String → Outcome (Option Printed × ℕ) = λ state_file.
      elim (files.stat_size state_file) [
        | none ↦ ok (none, 1)
        | some size ↦ elim (files.contents state_file) [
          | none ↦ ok (none, 1)
          | some words ↦ debug_file size words
        ]
      ] in
    let given : Outcome (Option Printed × ℕ) = elim (get_elem? parsed.argv parsed.optind) [
      | none ↦ ok (none, 1)
      | some state_file ↦ opened state_file
    ] in
    if not_zero (debug_options parsed.codes 0) then ok (none, 1) else given
