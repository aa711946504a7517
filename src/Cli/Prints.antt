-- ===== src/Cli/Prints.antt =====
-- That `resmack debug-state` prints the corpus that the fuzzing processes have left in a state file
-- (ws/resmack/src/debug_state.cpp).
use Prim.Native.String.{String}
use resmack.Prelude.{
  ℕ, ◌*◌, ◌/◌, ◌^◌, ◌<◌, ◌≡◌, refl, ap, ◌∙◌, List, [], ◌∷◌, map, some, length, get_elem?, All,
  arith, le→ltb_false,
}
use resmack.Prelude.Outcome.{ok, ◌>>=◌}
use resmack.Corpus.{SharedCorpus}
use resmack.Corpus.Grow.{take_all}
use resmack.Layout.{get32, read_items, write_items}
use resmack.Layout.RoundTrip.{Fits, get64-put64, read_items-write_items, stored_item}
use resmack.Cli.Compile.{Getopt}
use resmack.Cli.DebugState.{
  get_numbers, put_numbers, Printed, PrintedCorpus, debug_corpus, debug_state, write_state, Files,
  debug_options, debug_file, debug_run,
}

abbrev pub AllWords : List ℕ → Type 0
AllWords = All (λ (x : ℕ). x < 2 ^ 64)

get_numbers-put_numbers :
    (xs rest : List ℕ) → AllWords xs → get_numbers (length xs) (put_numbers xs rest) ≡ ok (xs, rest)
unfolding get_numbers put_numbers
get_numbers-put_numbers [] rest h = refl
get_numbers-put_numbers (x ∷ xs) rest h =
    rw (get64-put64 x (put_numbers xs rest) h.0, get_numbers-put_numbers xs rest h.1) refl

-- What is to be printed of a corpus.
abbrev pub shown_corpus : SharedCorpus → PrintedCorpus
shown_corpus m = record {
  updated = m.updated_seq;
  reorg = m.reorg_seq;
  entries = m.num_entries;
  stored = map (stored_item 0 0) m.items;
}

debug_corpus-write_items :
    (m : SharedCorpus) (rest : List ℕ)
    → m.num_entries ≡ length m.items
    → All Fits m.items
    → debug_corpus (m.updated_seq ∷ m.reorg_seq ∷ m.num_entries ∷ write_items m.items rest)
      ≡ ok (shown_corpus m)
unfolding debug_corpus get32
debug_corpus-write_items m rest full fits =
    ap
      (λ n. read_items n (write_items m.items rest) >>= λ q. ok (record {
        updated = m.updated_seq;
        reorg = m.reorg_seq;
        entries = m.num_entries;
        stored = q.0;
      }))
      full
    ∙ rw (read_items-write_items m.items rest fits) refl

-- The numbers at the start of a state.
pub record Head : Type 0 where
  pub iterations : ℕ
  pub crashes : ℕ
  pub durations : List ℕ
  pub reserved : List ℕ

pub record HeadFits (s : Head) : Type 0 where
  pub iterations_fit : s.iterations < 2 ^ 64
  pub crashes_fit : s.crashes < 2 ^ 64
  pub six : 6 ≡ length s.durations
  pub eight : 8 ≡ length s.reserved
  pub durations_fit : AllWords s.durations
  pub reserved_fit : AllWords s.reserved

abbrev pub state_words : Head → SharedCorpus → List ℕ → List ℕ
state_words s m rest = write_state s.iterations s.crashes s.durations s.reserved m rest

abbrev pub shown_state : Head → SharedCorpus → Printed
shown_state s m = record {
  total_iterations = s.iterations;
  total_crashes = s.crashes;
  durations = s.durations;
  reserved = s.reserved;
  printed_corpus = shown_corpus m;
}

counted_numbers :
    (n : ℕ) (xs rest : List ℕ)
    → n ≡ length xs
    → AllWords xs
    → get_numbers n (put_numbers xs rest) ≡ ok (xs, rest)
counted_numbers n xs rest e h =
    ap (λ k. get_numbers k (put_numbers xs rest)) e ∙ get_numbers-put_numbers xs rest h

debug_state-write_state :
    (s : Head) (m : SharedCorpus) (rest : List ℕ)
    → HeadFits s
    → m.num_entries ≡ length m.items
    → All Fits m.items
    → debug_state (state_words s m rest) ≡ ok (shown_state s m)
unfolding debug_state write_state
debug_state-write_state s m rest h full fits =
    rw
      (
        get64-put64 s.iterations _ h.iterations_fit,
        get64-put64 s.crashes _ h.crashes_fit,
        counted_numbers 6 s.durations _ h.six h.durations_fit,
        counted_numbers 8 s.reserved _ h.eight h.reserved_fit,
        debug_corpus-write_items m rest full fits,
      )
      refl

debug_file-whole :
    (words : List ℕ)
    → debug_file (4 * length words) words ≡ (debug_state words >>= λ printed. ok (some printed, 0))
unfolding debug_file
debug_file-whole words =
    rw
      (
        le→ltb_false (4 * length words) (4 * length words) (omega arith),
        take_all (4 * length words / 4) words (omega arith),
      )
      refl

-- Where no option asks for help and the argument behind the options names a file that can be read whole
-- and holds a state whose numbers are 64-bit numbers and whose corpus has as many items as it counts,
-- debug-state prints the numbers of the state, of the corpus and of each item with all its
-- snapshots, in their order, and ends with 0, whatever lies behind the last item.
pub debug_state_prints :
    (getopt : Getopt) (files : Files) (argv : List String) (state_file : String) (s : Head)
    (m : SharedCorpus) (rest : List ℕ)
    → debug_options (getopt.parse "h" ("help" ∷ []) argv).codes 0 ≡ 0
    → get_elem?
        (getopt.parse "h" ("help" ∷ []) argv).argv
        (getopt.parse "h" ("help" ∷ []) argv).optind
      ≡ some state_file
    → files.stat_size state_file ≡ some (4 * length (state_words s m rest))
    → files.contents state_file ≡ some (state_words s m rest)
    → HeadFits s
    → m.num_entries ≡ length m.items
    → All Fits m.items
    → debug_run getopt files argv ≡ ok (some (shown_state s m), 0)
unfolding debug_run
debug_state_prints getopt files argv state_file s m rest no_help given size words h full fits =
    rw
      (
        no_help,
        given,
        size,
        words,
        debug_file-whole (state_words s m rest),
        debug_state-write_state s m rest h full fits,
      )
      refl
