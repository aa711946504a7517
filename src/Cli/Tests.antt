-- ===== src/Cli/Tests.antt =====
-- Runs of the command line program of ws/resmack/src/.
use Prim.Native.String.{String}
use resmack.Prelude.{◌*◌, ◌≡◌, refl, false, List, [], ◌∷◌, some, length, arith, ◌⊎◌, inr, ◌^◌}
use resmack.Prelude.Outcome.{ok}
use resmack.Corpus.{CorpusItemHeader, SharedCorpus}
use resmack.Layout.RoundTrip.{Fits}
use resmack.Cli.{root_run, root_rest, root_options, compiled, nothing}
use resmack.Cli.Compile.{Getopt, short, cc_run, compile_options, compile_command}
use resmack.Cli.DebugState.{Files, debug_run, debug_options}
use resmack.Cli.Asan.{GetoptLaws, dash_a_ignored}
use resmack.Cli.Prints.{Head, HeadFits, state_words, shown_state, debug_state_prints}

-- One option that is not known, and the arguments behind it.
abbrev unknown_option : Getopt
unknown_option = record {
  parse = λ letters longs argv. record { codes = short b'?' ∷ []; optind = 2; argv = argv };
}

unknown_option_laws : GetoptLaws unknown_option
unknown_option_laws = record { known = λ letters longs argv. (inr refl, tt) }

abbrev cc_argv : List String
cc_argv = "cc" ∷ "-a" ∷ "fuzz.cpp" ∷ []

dash_a_ignored_example :
    (cc_run unknown_option "/usr/bin" cc_argv ≡ record { command = []; code = 1 })
    ⊎ (cc_run unknown_option "/usr/bin" cc_argv
        ≡ record { command = compile_command false ("fuzz.cpp" ∷ []) "/usr/bin"; code = 0 })
dash_a_ignored_example =
    dash_a_ignored unknown_option unknown_option_laws "/usr/bin" cc_argv (tt, tt)

-- No option.
abbrev no_option : Getopt
no_option = record { parse = λ letters longs argv. record { codes = []; optind = 1; argv = argv } }

abbrev item : CorpusItemHeader
item = record {
  parent1_one_based_idx = 0;
  parent2_one_based_idx = 0;
  feedback_key = 2 ^ 40;
  feedback_num = 5;
  iter_discovered = 1;
  mutations_since_offspring = 40;
  num_crashes = 0;
  num_ancestors = 0;
  num_direct_descendants = 0;
  num_descendants = 0;
  states =
      record {
        ref_depth = 0;
        max_depth = 10;
        rule_idx = 3;
        state = record { s0 = 7; s1 = 11; s2 = 13; s3 = 17 };
      }
      ∷ [];
}

item-Fits : Fits item
item-Fits = omega arith

abbrev corpus : SharedCorpus
corpus = record { updated_seq = 1; reorg_seq = 0; num_entries = 1; items = item ∷ [] }

abbrev head : Head
head = record {
  iterations = 2 ^ 33;
  crashes = 1;
  durations = 1 ∷ 2 ∷ 3 ∷ 4 ∷ 5 ∷ 6 ∷ [];
  reserved = 0 ∷ 0 ∷ 0 ∷ 0 ∷ 0 ∷ 0 ∷ 0 ∷ 0 ∷ [];
}

head-HeadFits : HeadFits head
head-HeadFits = record {
  iterations_fit = omega arith;
  crashes_fit = omega arith;
  six = refl;
  eight = refl;
  durations_fit = omega arith;
  reserved_fit = omega arith;
}

-- Two words of zeros lie behind the item.
abbrev one_file : Files
one_file = record {
  stat_size = λ name. some (4 * length (state_words head corpus (0 ∷ 0 ∷ [])));
  contents = λ name. some (state_words head corpus (0 ∷ 0 ∷ []));
}

debug_state_prints_example :
    debug_run no_option one_file ("debug-state" ∷ "a.out.resmack-state" ∷ [])
    ≡ ok (some (shown_state head corpus), 0)
unfolding debug_options
debug_state_prints_example =
    debug_state_prints no_option one_file ("debug-state" ∷ "a.out.resmack-state" ∷ [])
      "a.out.resmack-state" head corpus (0 ∷ 0 ∷ []) refl refl refl refl head-HeadFits refl
      (item-Fits, tt)

-- A command that only starts like cc is taken for it, and one that is not known does nothing.
root_run_test :
    root_run no_option one_file "/usr/bin" ("resmack" ∷ "ccc" ∷ "fuzz.cpp" ∷ [])
    ≡ ok (
        compiled
          (record { command = compile_command false ("fuzz.cpp" ∷ []) "/usr/bin"; code = 0 }))
unfolding root_run cc_run compile_options
root_run_test = refl

unknown_command_test :
    root_run no_option one_file "/usr/bin" ("resmack" ∷ "compile" ∷ "fuzz.cpp" ∷ []) ≡ ok nothing
unfolding root_run root_rest root_options
unknown_command_test = refl
