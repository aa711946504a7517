-- ===== src/Fuzz/Options.antt =====
-- The options of a fuzzer: `FuzzOptions`, `OPTS` and `ParseOptions` of
-- ws/libresmack_fuzz_main/src/main.cpp. getopt_long is outside of the model: it gives the list of the
-- values that it returns, each with its argument. So are fs::absolute, strtoull and std::stof, the last
-- of which may throw; `print_interval` is a number of units of its choice. Paths are strings.
use Prim.Native.Nat.{bit_or}
use Prim.Native.String.{String, ◌++◌ as str_append}
use text.Mathlib.Text.{◌==◌ as str_eq}
use resmack.Prelude.{ℕ, ◌^◌, Bool, true, false, List, [], ◌∷◌, Option, none, some, if◌then◌else◌}
use resmack.Prelude.Outcome.{Outcome, ok, ◌>>=◌}

pub record FuzzOptions : Type 0 where
  pub help : Bool
  pub nprocs : ℕ
  pub max_depth : ℕ
  pub max_iters : ℕ
  pub max_crashes : ℕ
  pub show_stats : Bool
  pub mute_stdio : Bool
  pub print_interval : ℕ
  pub stats_interval : ℕ
  pub crash_output : String
  pub create_threshhold : ℕ
  pub dump_corpus_path : String
  pub do_corpus_dump : Bool
  pub corpus_strats : ℕ
  pub run_direct : Bool
  pub state_path : String
  pub pin_cpus : Bool
  pub corpus_decay : ℕ

pub record Libc : Type 0 where
  pub absolute : String → String
  pub strtoull : String → ℕ
  pub stof : String → Outcome ℕ

-- `OPTS`
unfoldable pub default_options : Libc → FuzzOptions
default_options libc = record {
  help = false;
  nprocs = 1;
  max_depth = 10;
  max_iters = 0;
  max_crashes = 0;
  show_stats = false;
  mute_stdio = true;
  print_interval = 0;
  stats_interval = 10000;
  crash_output = libc.absolute "crashes";
  create_threshhold = 100000;
  dump_corpus_path = libc.absolute "/dev/null";
  do_corpus_dump = false;
  corpus_strats = 0;
  run_direct = false;
  state_path = libc.absolute ".resmack-state";
  pin_cpus = true;
  corpus_decay = 100000;
}

-- The names of the strategies with their bits, in the order of the comparisons.
abbrev pub strat_names : List (String × ℕ)
strat_names =
    ("MOST_FEEDBACK", 2 ^ 1)
    ∷ ("LEAST_FEEDBACK", 2 ^ 2)
    ∷ ("MOST_RECENT", 2 ^ 3)
    ∷ ("LEAST_RECENT", 2 ^ 4)
    ∷ ("MOST_ANCESTORS", 2 ^ 5)
    ∷ ("LEAST_ANCESTORS", 2 ^ 6)
    ∷ ("MOST_DIRECT_DESCENDANTS", 2 ^ 7)
    ∷ ("LEAST_DIRECT_DESCENDANTS", 2 ^ 8)
    ∷ ("MOST_DESCENDANTS", 2 ^ 9)
    ∷ ("LEAST_DESCENDANTS", 2 ^ 10)
    ∷ ("RAND", 2 ^ 0)
    ∷ []

abbrev pub find_strat : String → List (String × ℕ) → Option ℕ
find_strat arg [] = none
find_strat arg ((name, bit) ∷ rest) = if str_eq arg name then some bit else find_strat arg rest

-- What getopt_long returns: a character, or one of the four codes of the options without one.
pub data OptCode : Type 0 where
  opt_zero opt_h opt_s opt_d opt_m opt_max_crashes opt_n opt_i opt_c opt_t : OptCode
  opt_dump opt_no_mute opt_run_direct opt_state opt_strat opt_p : OptCode
  opt_no_pin_cpu opt_corpus_decay opt_other : OptCode

-- One turn of the loop; none is the exit for an unknown strategy. On 0, getopt_long has set the flag
-- of the only option that has one, --show-stats.
unfoldable pub parse_option : Libc → OptCode → String → FuzzOptions → Outcome (Option FuzzOptions)
parse_option libc opt_zero optarg opts = ok (some (record opts { show_stats = true }))
parse_option libc opt_h optarg opts = ok (some (record opts { help = true }))
parse_option libc opt_s optarg opts = ok (some (record opts { show_stats = true }))
parse_option libc opt_d optarg opts = ok (some (record opts { max_depth = libc.strtoull optarg }))
parse_option libc opt_m optarg opts = ok (some (record opts { max_iters = libc.strtoull optarg }))
parse_option libc opt_max_crashes optarg opts =
    ok (some (record opts { max_crashes = libc.strtoull optarg }))
parse_option libc opt_n optarg opts = ok (some (record opts { nprocs = libc.strtoull optarg }))
parse_option libc opt_i optarg opts =
    ok (some (record opts { stats_interval = libc.strtoull optarg }))
parse_option libc opt_c optarg opts =
    ok (some (record opts { crash_output = libc.absolute optarg }))
parse_option libc opt_t optarg opts =
    ok (some (record opts { create_threshhold = libc.strtoull optarg }))
parse_option libc opt_dump optarg opts =
    ok (some (record opts { dump_corpus_path = libc.absolute optarg; do_corpus_dump = true }))
parse_option libc opt_no_mute optarg opts = ok (some (record opts { mute_stdio = false }))
parse_option libc opt_run_direct optarg opts = ok (some (record opts { run_direct = true }))
parse_option libc opt_state optarg opts =
    ok (some (record opts { state_path = libc.absolute optarg }))
parse_option libc opt_strat optarg opts = elim (find_strat optarg strat_names) [
  | none ↦ ok none
  | some bit ↦ ok (some (record opts { corpus_strats = bit_or opts.corpus_strats bit }))
]
parse_option libc opt_p optarg opts =
    libc.stof optarg >>= λ interval. ok (some (record opts { print_interval = interval }))
parse_option libc opt_no_pin_cpu optarg opts = ok (some (record opts { pin_cpus = false }))
parse_option libc opt_corpus_decay optarg opts =
    ok (some (record opts { corpus_decay = libc.strtoull optarg }))
parse_option libc opt_other optarg opts = ok (some opts)

unfoldable pub parse_loop :
    Libc → List (OptCode × String) → FuzzOptions → Outcome (Option FuzzOptions)
unfolding parse_option
parse_loop libc [] opts = ok (some opts)
parse_loop libc ((c, optarg) ∷ rest) opts = parse_option libc c optarg opts >>= λ parsed.
    elim parsed [ none ↦ ok none | some opts' ↦ parse_loop libc rest opts' ]

-- `ParseOptions` with the program's name; the return value is always true.
unfoldable pub parse_options :
    Libc → String → List (OptCode × String) → Outcome (Option FuzzOptions)
unfolding default_options parse_loop
parse_options libc prog_name args = parse_loop libc args (record (default_options libc) {
  state_path = libc.absolute (str_append prog_name ".resmack-state");
})
