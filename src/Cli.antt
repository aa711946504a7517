-- ===== src/Cli.antt =====
-- The command line program: ws/resmack/src/main.cpp and, in the children, the sub-commands of src/compile.cpp
-- and src/debug_state.cpp. getopt_long is a parameter: it gives what its calls return, one after the other,
-- `optind` after the last one, and the arguments in the order that it has put them in. An int that is an
-- option's flag is a number.
pub mod Compile
pub mod DebugState
pub mod Asan
pub mod Prints
mod Tests
use Prim.Native.String.{String}
use text.Mathlib.Text.{starts_with, ◌==◌ as str_eq}
use resmack.Prelude.{
  ℕ, ◌-◌, Bool, true, false, ◌||◌, List, [], ◌∷◌, Option, none, some, ◌==◌, if◌then◌else◌, length,
}
use resmack.Prelude.Outcome.{Outcome, ok, ◌>>=◌}
use Compile.{Getopt, Code, flagged, short, Parsed, CcRun, cc_run, not_zero}
use DebugState.{Files, Printed, debug_run}

-- What the program does: a sub-command, the help, or nothing, with the exit code.
pub data Ran : Type 0 where
  compiled : CcRun → Ran
  debugged : Option Printed → ℕ → Ran
  root_help nothing : Ran

-- One turn of the loop of `ParseOpts`.
unfoldable pub root_option : Code → ℕ → ℕ
root_option (flagged name) help = if str_eq name "help" then b'h' else help
root_option (short c) help = if c == b'h' then 1 else help

unfoldable pub root_options : List Code → ℕ → ℕ
unfolding root_option
root_options [] help = help
root_options (c ∷ cs) help = root_options cs (root_option c help)

-- `Run` without a sub-command.
unfoldable pub root_rest : Getopt → List String → Ran
unfolding root_options
root_rest getopt argv =
    let parsed = getopt.parse "h" ("help" ∷ []) argv in
    let help = root_options parsed.codes 0 in
    if length argv == 1 || (not_zero help || parsed.optind == length argv)
    then root_help
    else nothing

-- `Run`. A sub-command is known by its first letters.
unfoldable pub root_run : Getopt → Files → String → List String → Outcome Ran
unfolding root_rest
root_run getopt files exe_dir (prog ∷ command ∷ args) =
    let debug : Outcome Ran =
      debug_run getopt files (command ∷ args) >>= λ q. ok (debugged q.0 q.1) in
    if starts_with command "cc"
    then ok (compiled (cc_run getopt exe_dir (command ∷ args)))
    else if starts_with command "debug-state"
    then debug
    else ok (root_rest getopt (prog ∷ command ∷ args))
root_run getopt files exe_dir argv = ok (root_rest getopt argv)
