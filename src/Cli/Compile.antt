-- ===== src/Cli/Compile.antt =====
-- `resmack cc`: ws/resmack/src/compile.cpp.
use Prim.Native.String.{String}
use text.Mathlib.Text.{◌==◌ as str_eq}
use resmack.Prelude.{ℕ, Bool, true, false, not, List, [], ◌∷◌, ◌++◌, ◌==◌, if◌then◌else◌, drop}

-- What a call of getopt_long returns: 0 for an option whose flag it has set, or a letter.
pub data Code : Type 0 where
  flagged : String → Code
  short : ℕ → Code

pub record Parsed : Type 0 where
  pub codes : List Code
  pub optind : ℕ
  pub argv : List String

-- getopt_long, until it returns -1, for a string of letters and the names of the long options.
pub record Getopt : Type 0 where
  pub parse : String → List String → List String → Parsed

abbrev pub not_zero : ℕ → Bool
not_zero n = not (n == 0)

pub record CompileOpts : Type 0 where
  pub help : ℕ
  pub use_asan : ℕ

-- One turn of the loop of `ParseOpts`; getopt_long sets a flag to its option's letter.
unfoldable pub compile_option : Code → CompileOpts → CompileOpts
compile_option (flagged name) opts =
    if str_eq name "help"
    then record opts { help = b'h' }
    else if str_eq name "asan"
    then record opts { use_asan = b'a' }
    else opts
compile_option (short c) opts =
    if c == b'h'
    then record opts { help = 1 }
    else if c == b'a'
    then record opts { use_asan = 1 }
    else opts

unfoldable pub compile_options : List Code → CompileOpts → CompileOpts
unfolding compile_option
compile_options [] opts = opts
compile_options (c ∷ cs) opts = compile_options cs (compile_option c opts)

abbrev pub compile_start : List String
compile_start =
    "clang++" ∷ "-fno-omit-frame-pointer" ∷ "-fno-sanitize=all" ∷ "-Iws/libresmack/include" ∷ []

unfoldable pub sanitizer_flags : Bool → List String
sanitizer_flags true = "-O0" ∷ "-fsanitize=address" ∷ []
sanitizer_flags false = "-fno-sanitize=address" ∷ "-O3" ∷ "-ffast-math" ∷ "-march=native" ∷ []

abbrev pub link_flags : List String
link_flags =
    "-Wl,--whole-archive" ∷ "-lresmack_fuzz_main-static" ∷ "-Wl,--no-whole-archive"
    ∷ "-lresmack_fuzz" ∷ "-lresmack" ∷ "-lpthread" ∷ "-lcrypto" ∷ "-lunwind" ∷ "-lunwind-ptrace"
    ∷ "-lunwind-generic" ∷ []

-- The arguments of execvp, without the null pointer at their end; `args` are those from `optind` on.
unfoldable pub compile_command : Bool → List String → String → List String
unfolding sanitizer_flags
compile_command asan args exe_dir =
    compile_start
    ++ sanitizer_flags asan
    ++ ("-fsanitize-coverage=trace-pc-guard" ∷ [])
    ++ args
    ++ link_flags
    ++ ("-L" ∷ exe_dir ∷ [])

-- What was executed, if it was, and the exit code.
pub record CcRun : Type 0 where
  pub command : List String
  pub code : ℕ

-- `Run`, which does not look at how the compiler ended.
unfoldable pub cc_run : Getopt → String → List String → CcRun
unfolding compile_options compile_command
cc_run getopt exe_dir argv =
    let parsed = getopt.parse "hs" ("help" ∷ "asan" ∷ []) argv in
    let opts = compile_options parsed.codes (record { help = 0; use_asan = 0 }) in
    if not_zero opts.help then record { command = []; code = 1 } else record {
      command = compile_command (not_zero opts.use_asan) (drop parsed.optind parsed.argv) exe_dir;
      code = 0;
    }
