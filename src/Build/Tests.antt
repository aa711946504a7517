-- ===== src/Build/Tests.antt =====
-- Items of ws/libresmack/src/items/ built to text, and a flush that returns.
use resmack.Prelude.{
  ℕ, zero, suc, ◌≤◌, subst, ◌≢◌, arith, true, ◌≡◌, refl, [], ◌∷◌, false, none, some,
}
use resmack.Prelude.Outcome.{Fault, ok, fail}
use resmack.Rand.{Rand, RandSnapshot}
use resmack.Item.{
  id, opt, raw, ref, pre, post, seq, flushed, capture, captured, of_list, intends_output,
}
use resmack.Manager.{RuleManager, init, get_any_rule, get_rule}
use resmack.Build.Context.{
  Ctx, Env, at, null, due, inc_depth, dec_depth, do_shortest, maybe_do_rand_replay,
  maybe_undo_rand_replay, append, flush_pre_post, build_post_items,
}
use resmack.Build.Items.{
  build_rule, build_rule_in, build_or, record_snapshot, finish_rule, build_seq, seq_loop,
  build_capture, build_captured, put_capture,
}
use resmack.Build.Text.{joined}
use resmack.Build.Flush.{flushed_in_order}
use resmack.Build.{build, build_ref, rules_build, build_idx}
use resmack.Build.Ends.{build_ends}
use resmack.Build.Ranked.{Plain, AllPlain, inner, total, Fit, AllFit, some_inj}
use resmack.Build.KeepsDepth.{build_keeps_depth}
use resmack.Item.Rule.{Rule, choose, pick_index}

abbrev seeded : Rand
seeded = record {
  s = record { s0 = 7; s1 = 11; s2 = 13; s3 = 17 };
  snapshots = [];
  should_record = false;
  use_last_gaussian = false;
}

abbrev env : Env
env = record { format_int = λ n. []; map_order = λ m. m; calc_fuel = 10 }

abbrev fresh : Ctx
fresh = record {
  rules = init;
  pre_output = at (b'<' ∷ []);
  output = [];
  rand = seeded;
  ref_depth = 0;
  max_depth = 10;
  post_items = [];
  captures = [];
  replay = none;
  replay_idx = 0;
}

abbrev after_flush : Ctx
after_flush = record fresh { pre_output = null; output = b'<' ∷ [] }

flush_returns : flush_pre_post (build env 3) fresh ≡ ok after_flush
unfolding flush_pre_post build_post_items
flush_returns = refl

joined_test : joined (b',' ∷ []) ((b'a' ∷ []) ∷ (b'b' ∷ []) ∷ []) ≡ b'a' ∷ b',' ∷ b'b' ∷ []
joined_test = refl

flushed_in_order_example :
    build env 4
      (flushed
        (seq (of_list (post (raw (b'c' ∷ [])) ∷ pre (raw (b'a' ∷ [])) ∷ raw (b'b' ∷ []) ∷ [])) []))
      fresh
    ≡ ok (append (b'a' ∷ b'b' ∷ b'c' ∷ []) fresh)
flushed_in_order_example = flushed_in_order env 0 (b'a' ∷ []) (b'b' ∷ []) (b'c' ∷ []) fresh

capture_test :
    build env 3 (seq (of_list (capture (raw (b'a' ∷ [])) ∷ captured ∷ [])) []) fresh
    ≡ ok (record fresh { output = b'a' ∷ b'a' ∷ []; captures = (b'a' ∷ []) ∷ [] })
unfolding build build_seq seq_loop build_capture build_captured put_capture intends_output
capture_test = refl

abbrev snap : RandSnapshot
snap = record { ref_depth = 0; max_depth = 3; rule_idx = 0; state = seeded.s }

abbrev replaying : Ctx
replaying = record fresh { replay = some (snap ∷ []) }

due_test : due replaying ≡ some snap
unfolding due
due_test = refl

-- A grammar with one rule, which has been analysed.
abbrev grammar : RuleManager
grammar = record {
  names = record { idx_to_name = (0, "start") ∷ []; name_to_idx = ("start", 0) ∷ [] };
  top = record {
    finalized = true;
    rules =
        some (record {
          items = of_list (raw (b'a' ∷ []) ∷ []);
          choices = record { choice_indices = 0 ∷ []; shortest_indices = 0 ∷ []; keep = false };
        })
        ∷ [];
  };
  parents = [];
}

abbrev with_grammar : Ctx
with_grammar = record fresh { rules = grammar }

ref_builds :
    build env 2 (ref "start" 0 false) with_grammar ≡ ok (record with_grammar { output = b'a' ∷ [] })
unfolding build build_ref rules_build build_rule build_rule_in build_or choose pick_index inc_depth
    dec_depth get_any_rule get_rule maybe_do_rand_replay maybe_undo_rand_replay due record_snapshot
    finish_rule do_shortest
ref_builds = refl

build_keeps_depth_example :
    (record with_grammar { output = b'a' ∷ [] }).ref_depth ≡ with_grammar.ref_depth
build_keeps_depth_example =
    build_keeps_depth env 2 (ref "start" 0 false) with_grammar
      (record with_grammar { output = b'a' ∷ [] }) ref_builds

-- A start rule with an optional comma behind a word, which is drawn afresh and kept as one more word.
abbrev ranked_start : Rule
ranked_start = record {
  items = of_list (seq (of_list (ref "word" 1 false ∷ opt (raw (b',' ∷ [])) ∷ [])) [] ∷ []);
  choices = record { choice_indices = 0 ∷ []; shortest_indices = 0 ∷ []; keep = false };
}

abbrev ranked_word : Rule
ranked_word = record {
  items = of_list (id "word" 1 ∷ []);
  choices = record { choice_indices = 0 ∷ []; shortest_indices = 0 ∷ []; keep = false };
}

abbrev words : RuleManager
words = record {
  names = record {
    idx_to_name = (0, "start") ∷ (1, "word") ∷ [];
    name_to_idx = ("start", 0) ∷ ("word", 1) ∷ [];
  };
  top = record { finalized = true; rules = some ranked_start ∷ some ranked_word ∷ [] };
  parents = [];
}

abbrev word_rank : ℕ → ℕ
word_rank zero = 6
word_rank (suc i) = 1

word_rank-positive : (i : ℕ) → 1 ≤ word_rank i
word_rank-positive zero = omega arith
word_rank-positive (suc i) = omega arith

words-AllFit : AllFit word_rank words.top.rules
unfolding Plain AllPlain inner total
words-AllFit zero r e =
    subst (λ (q : Rule). Fit word_rank 6 q.items) (some_inj e) ((tt, (tt, tt)), omega arith, tt)
words-AllFit (suc zero) r e =
    subst (λ (q : Rule). Fit word_rank 1 q.items) (some_inj e) (tt, omega arith, tt)
words-AllFit (suc (suc i)) r e = cc

build_ends_example : build_idx env 6 words 0 [] seeded 10 ≢ fail Fault.no_fuel
build_ends_example =
    build_ends word_rank env 6 words 0 [] seeded 10 word_rank-positive refl refl words-AllFit
      (omega arith)
