-- ===== src/Tracee/Tests.antt =====
-- Runs of the operations of ws/libresmack_fuzz/src/tracee.cpp.
use resmack.Prelude.{
  ap, zero, suc, ◌^◌, ◌++◌, take, ℕ, ◌≡◌, refl, false, [], ◌∷◌, some, length, get_elem?, replicate,
  arith, List,
}
use resmack.Prelude.Int.{pos}
use resmack.Prelude.Outcome.{Fault, ok, fail}
use resmack.Rand.{RandState, RandSnapshot}
use resmack.Tracee.{Tracee, save_last_replay, load_last_replay, save_asan_info}
use resmack.Tracee.Replay.{save_then_load, refused_then_load}
use resmack.Tracee.Report.{saved_report}

abbrev words : RandState
words = record { s0 = 7; s1 = 11; s2 = 13; s3 = 17 }

abbrev snap : ℕ → RandSnapshot
snap rule = record { ref_depth = 0; max_depth = 10; rule_idx = rule; state = words }

-- A tracee with room for `n` states and a report of at most seven characters.
abbrev with_room : ℕ → Tracee
with_room n = record {
  idx = 0;
  basic_shared = record {
    iter_start = pos 0;
    lifetime_start = pos 0;
    last_corpus_index1 = 0;
    last_corpus_index2 = 0;
    last_max_depth = 0;
    last_used_corpus = false;
    num_states = 0;
    states = replicate n (snap 9);
  };
  asan_shared = record {
    exists = false;
    major_hash = [];
    minor_hash = [];
    report = replicate 8 63;
  };
}

save_then_load_example :
    ((save_last_replay (snap 1 ∷ snap 2 ∷ []) (with_room 4)).0 ≡ ok tt)
    × (load_last_replay (save_last_replay (snap 1 ∷ snap 2 ∷ []) (with_room 4)).1 (snap 5 ∷ [])
        ≡ ok (snap 5 ∷ snap 1 ∷ snap 2 ∷ []))
save_then_load_example =
    save_then_load (snap 1 ∷ snap 2 ∷ []) (snap 5 ∷ []) (with_room 4) (omega arith) (omega arith)

many : ℕ → List RandSnapshot
many zero = []
many (suc n) = snap 1 ∷ many n

length-many : (n : ℕ) → length (many n) ≡ n
unfolding many
length-many zero = refl
length-many (suc n) = ap suc (length-many n)

-- A tracee whose array holds as many states as are refused.
abbrev full : Tracee
full = record (with_room 0) {
  basic_shared = record (with_room 0).basic_shared { states = many (2 ^ 16) };
}

refused_then_load_example :
    ((save_last_replay (many (2 ^ 16)) full).0 ≡ fail Fault.thrown)
    × (load_last_replay (save_last_replay (many (2 ^ 16)) full).1 []
        ≡ ok ([] ++ take (length (many (2 ^ 16))) (many (2 ^ 16))))
refused_then_load_example =
    refused_then_load (many (2 ^ 16)) [] full (omega (arith, length-many (2 ^ 16))) (omega arith)

saved_report_example :
    (t' : Tracee) × (save_asan_info
        (λ s. s)
        ((1 ∷ []) ∷ (2 ∷ 3 ∷ []) ∷ [])
        (65 ∷ 66 ∷ 67 ∷ [])
        (with_room 0)
      ≡ ok t')
    × (t'.asan_shared.report ≡ 65 ∷ 66 ∷ 63 ∷ 0 ∷ 63 ∷ 63 ∷ 63 ∷ 63 ∷ [])
    × (get_elem? t'.asan_shared.report 3 ≡ some 0)
    × (t'.asan_shared.major_hash ≡ 1 ∷ 2 ∷ 3 ∷ [])
    × (t'.asan_shared.minor_hash ≡ t'.asan_shared.major_hash)
saved_report_example =
    saved_report (λ s. s) ((1 ∷ []) ∷ (2 ∷ 3 ∷ []) ∷ []) (65 ∷ 66 ∷ 67 ∷ []) (with_room 0)
      (omega arith) (omega arith) (omega arith)
