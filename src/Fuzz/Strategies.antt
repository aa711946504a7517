-- ===== src/Fuzz/Strategies.antt =====
-- The option --corpus-strat of ws/libresmack_fuzz_main/src/main.cpp and `SetStrats` of
-- ws/libresmack_fuzz/src/corpora/mmap.cpp.
use Prim.Native.Nat.{bit_or}
use Prim.Native.String.{String}
use resmack.Prelude.{ℕ, ◌^◌, ◌≡◌, refl, [], ◌∷◌, some}
use resmack.Prelude.Outcome.{ok}
use resmack.Corpus.{
  MmapCorpus, CorpusStrat, strat_rand, strat_most_feedback, strat_least_feedback, strat_most_recent,
  strat_least_recent, strat_most_ancestors, strat_least_ancestors, strat_most_direct_descendants,
  strat_least_direct_descendants, strat_most_descendants, strat_least_descendants,
}
use resmack.Corpus.Strats.{all_strats, set_strats, chosen_strats}
use resmack.Fuzz.Options.{
  FuzzOptions, Libc, find_strat, strat_names, opt_strat, parse_option, parse_loop,
}

-- The names of the help text.
abbrev pub documented_name : CorpusStrat → String
documented_name strat_rand = "RAND"
documented_name strat_most_feedback = "MOST_FEEDBACK"
documented_name strat_least_feedback = "LEAST_FEEDBACK"
documented_name strat_most_recent = "MOST_RECENT"
documented_name strat_least_recent = "LEAST_RECENT"
documented_name strat_most_ancestors = "MOST_ANCESTORS"
documented_name strat_least_ancestors = "LEAST_ANCESTORS"
documented_name strat_most_direct_descendants = "MOST_DIRECT_DESCENDANTS"
documented_name strat_least_direct_descendants = "LEAST_DIRECT_DESCENDANTS"
documented_name strat_most_descendants = "MOST_DESCENDANTS"
documented_name strat_least_descendants = "LEAST_DESCENDANTS"

abbrev bit_of : CorpusStrat → ℕ
bit_of strat_rand = 2 ^ 0
bit_of strat_most_feedback = 2 ^ 1
bit_of strat_least_feedback = 2 ^ 2
bit_of strat_most_recent = 2 ^ 3
bit_of strat_least_recent = 2 ^ 4
bit_of strat_most_ancestors = 2 ^ 5
bit_of strat_least_ancestors = 2 ^ 6
bit_of strat_most_direct_descendants = 2 ^ 7
bit_of strat_least_direct_descendants = 2 ^ 8
bit_of strat_most_descendants = 2 ^ 9
bit_of strat_least_descendants = 2 ^ 10

name_known : (s : CorpusStrat) → find_strat (documented_name s) strat_names ≡ some (bit_of s)
name_known strat_rand = refl
name_known strat_most_feedback = refl
name_known strat_least_feedback = refl
name_known strat_most_recent = refl
name_known strat_least_recent = refl
name_known strat_most_ancestors = refl
name_known strat_least_ancestors = refl
name_known strat_most_direct_descendants = refl
name_known strat_least_direct_descendants = refl
name_known strat_most_descendants = refl
name_known strat_least_descendants = refl

bit_chosen : (s : CorpusStrat) → chosen_strats (bit_or 0 (bit_of s)) all_strats ≡ s ∷ []
unfolding chosen_strats
bit_chosen strat_rand = refl
bit_chosen strat_most_feedback = refl
bit_chosen strat_least_feedback = refl
bit_chosen strat_most_recent = refl
bit_chosen strat_least_recent = refl
bit_chosen strat_most_ancestors = refl
bit_chosen strat_least_ancestors = refl
bit_chosen strat_most_direct_descendants = refl
bit_chosen strat_least_direct_descendants = refl
bit_chosen strat_most_descendants = refl
bit_chosen strat_least_descendants = refl

-- Without strategies so far, the documented name of a strategy is accepted, and the bits that it sets make
-- SetStrats choose exactly this strategy.
pub named_strategy_chosen :
    (libc : Libc) (opts : FuzzOptions) (c : MmapCorpus) (s : CorpusStrat)
    → opts.corpus_strats ≡ 0
    → c.strat_handlers ≡ []
    → (opts' : FuzzOptions) × (parse_loop libc ((opt_strat, documented_name s) ∷ []) opts
        ≡ ok (some opts'))
      × ((set_strats opts'.corpus_strats c).strat_handlers ≡ s ∷ [])
unfolding parse_loop parse_option set_strats
named_strategy_chosen libc opts c s none_yet no_handlers = (
  record opts { corpus_strats = bit_or 0 (bit_of s) },
  rw (parse_loop, parse_option, name_known s, none_yet) refl,
  rw no_handlers (bit_chosen s),
)
