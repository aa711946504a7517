-- ===== src/Corpus/Strats.antt =====
-- The strategies by which a recording is taken from the corpus: `SetStrats`, `GetRandIdxFromStrats`
-- and the handlers of ws/libresmack_fuzz/src/corpora/mmap.cpp.
use resmack.Prelude.{
  ℕ, ◌+◌, ◌-◌, ◌%◌, ◌/◌, ◌^◌, List, [], ◌∷◌, ◌++◌, leb, ◌==◌, if◌then◌else◌, length, get_elem?,
}
use resmack.Prelude.Outcome.{Outcome, Fault, ok, fail, or_fail, ◌>>=◌}
use resmack.Rand.{Rand, next}
use resmack.Corpus.{
  MmapCorpus, CorpusStrat, strat_rand, strat_most_feedback, strat_least_feedback, strat_most_recent,
  strat_least_recent, strat_most_ancestors, strat_least_ancestors, strat_most_direct_descendants,
  strat_least_direct_descendants, strat_most_descendants, strat_least_descendants,
}

-- The enumerators in the order of the tests in `SetStrats`: number k is bit k.
abbrev pub all_strats : List CorpusStrat
all_strats =
    strat_rand ∷ strat_most_feedback ∷ strat_least_feedback ∷ strat_most_recent ∷ strat_least_recent
    ∷ strat_most_ancestors ∷ strat_least_ancestors ∷ strat_most_direct_descendants
    ∷ strat_least_direct_descendants ∷ strat_most_descendants ∷ strat_least_descendants ∷ []

-- The strategies whose bits are set, `strats` being shifted to the bit of the first.
unfoldable pub chosen_strats : ℕ → List CorpusStrat → List CorpusStrat
chosen_strats strats [] = []
chosen_strats strats (s ∷ rest) =
    let later = chosen_strats (strats / 2) rest in if strats % 2 == 1 then s ∷ later else later

-- The handlers are added to those that are there.
unfoldable pub set_strats : ℕ → MmapCorpus → MmapCorpus
set_strats strats c = record c {
  strats = strats;
  strat_handlers = c.strat_handlers ++ chosen_strats strats all_strats;
}

-- x % n for a divisor that may be 0.
abbrev pub rem : ℕ → ℕ → Outcome ℕ
rem x n = if n == 0 then fail Fault.div_by_zero else ok (x % n)

-- list[i] and list[list.size() - i - 1], which are not checked.
abbrev pub at_front : List ℕ → ℕ → Outcome ℕ
at_front list i = or_fail (get_elem? list i) Fault.out_of_range

-- An i that is too large wraps to an index past the end.
abbrev pub at_back : List ℕ → ℕ → Outcome ℕ
at_back list i =
    if leb (length list) i then fail Fault.out_of_range else at_front list (length list - i - 1)

-- The `switch` with its handlers.
unfoldable pub handle_strat : CorpusStrat → MmapCorpus → Rand → ℕ → Outcome (ℕ × Rand)
handle_strat strat_rand c r i =
    let (v, r') = next r in rem v (length c.snapshots) >>= λ k. ok (k, r')
handle_strat strat_most_feedback c r i = at_front c.most_feedback i >>= λ k. ok (k, r)
handle_strat strat_least_feedback c r i = at_back c.most_feedback i >>= λ k. ok (k, r)
handle_strat strat_most_recent c r i = ok ((length c.snapshots + 2 ^ 64 - i - 1) % 2 ^ 64, r)
handle_strat strat_least_recent c r i = ok (i, r)
handle_strat strat_most_ancestors c r i = at_front c.most_ancestors_desc i >>= λ k. ok (k, r)
handle_strat strat_least_ancestors c r i = at_back c.most_ancestors_desc i >>= λ k. ok (k, r)
handle_strat strat_most_direct_descendants c r i =
    at_front c.most_direct_descendants_desc i >>= λ k. ok (k, r)
handle_strat strat_least_direct_descendants c r i =
    at_back c.most_direct_descendants_desc i >>= λ k. ok (k, r)
handle_strat strat_most_descendants c r i = at_front c.most_descendants_desc i >>= λ k. ok (k, r)
handle_strat strat_least_descendants c r i = at_back c.most_descendants_desc i >>= λ k. ok (k, r)

unfoldable pub get_rand_idx_from_strats : MmapCorpus → Rand → Outcome (ℕ × Rand)
get_rand_idx_from_strats c r =
    let (choice_val, r1) = next r in
    let (rand_val, r2) = next r1 in
    let corpus_len = length c.snapshots in
    rem rand_val (if leb 10 corpus_len then 10 else corpus_len) >>= λ rand_top_ten.
    rem choice_val (length c.strat_handlers) >>= λ k.
    or_fail (get_elem? c.strat_handlers k) Fault.out_of_range >>= λ strat.
    handle_strat strat c r2 rand_top_ten
