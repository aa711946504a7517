-- ===== src/Cli/Asan.antt =====
-- The short option for the address sanitizer that the help of ws/resmack/src/compile.cpp documents.
use Prim.Native.Char.{code}
use Prim.Native.String.{String}
use text.Mathlib.Text.{◌==◌ as str_eq}
use resmack.Prelude.{
  ℕ, ◌≡◌, refl, ◌∙◌, Bool, true, false, ◌||◌, List, [], ◌∷◌, ◌==◌, drop, ◌⊎◌, inl, inr, All, arith,
  Bool-cases,
}
use resmack.Cli.Compile.{
  Getopt, Code, flagged, short, CompileOpts, compile_option, compile_options, compile_command,
  cc_run, not_zero,
}

-- The letter is in the string.
abbrev pub is_letter : ℕ → String → Bool
is_letter c String.[] = false
is_letter c (String.◌∷◌ d s) = code d == c || is_letter c s

-- A letter that getopt_long returns is one of the string's, or the question mark of an error.
abbrev pub Known : String → Code → Type 0
Known letters (flagged name) = Unit
Known letters (short c) = (is_letter c letters ≡ true) ⊎ (c ≡ b'?')

pub record GetoptLaws (getopt : Getopt) : Type 0 where
  pub known :
      (letters : String) (longs argv : List String)
      → All (Known letters) (getopt.parse letters longs argv).codes

-- Not the long option.
abbrev pub NotLongAsan : Code → Type 0
NotLongAsan (flagged name) = str_eq name "asan" ≡ false
NotLongAsan (short c) = Unit

no_asan :
    (x : Code) (opts : CompileOpts)
    → Known "hs" x
    → NotLongAsan x
    → (compile_option x opts).use_asan ≡ opts.use_asan
unfolding compile_option
no_asan (flagged name) opts k n = elim (Bool-cases (str_eq name "help")) [
  | inl is_help ↦ rw is_help refl
  | inr other ↦ rw (other, n) refl
]
no_asan (short c) opts (inl k) n = ground arith
no_asan (short c) opts (inr k) n = ground arith

none_asan :
    (xs : List Code) (opts : CompileOpts)
    → All (Known "hs") xs
    → All NotLongAsan xs
    → (compile_options xs opts).use_asan ≡ opts.use_asan
unfolding compile_options
none_asan [] opts k n = refl
none_asan (x ∷ xs) opts k n = none_asan xs (compile_option x opts) k.1 n.1 ∙ no_asan x opts k.0 n.0

-- Without the long option --asan, whatever the arguments are and -a too, resmack cc compiles without the
-- address sanitizer and ends with 0, or runs no compiler and ends with 1.
pub dash_a_ignored :
    (getopt : Getopt)
    → GetoptLaws getopt
    → (exe_dir : String) (argv : List String)
    → All NotLongAsan (getopt.parse "hs" ("help" ∷ "asan" ∷ []) argv).codes
    → (cc_run getopt exe_dir argv ≡ record { command = []; code = 1 })
      ⊎ (cc_run getopt exe_dir argv ≡ record {
        command =
            compile_command false
              (drop
                (getopt.parse "hs" ("help" ∷ "asan" ∷ []) argv).optind
                (getopt.parse "hs" ("help" ∷ "asan" ∷ []) argv).argv)
              exe_dir;
        code = 0;
      })
unfolding cc_run
dash_a_ignored getopt laws exe_dir argv n =
    let parsed = getopt.parse "hs" ("help" ∷ "asan" ∷ []) argv in
    let start : CompileOpts = record { help = 0; use_asan = 0 } in
    let e : (compile_options parsed.codes start).use_asan ≡ 0 =
      none_asan parsed.codes start (laws.known "hs" ("help" ∷ "asan" ∷ []) argv) n in
    elim (Bool-cases (not_zero (compile_options parsed.codes start).help)) [
      | inl help ↦ inl (rw help refl)
      | inr no_help ↦ inr (rw (no_help, e) refl)
    ]
