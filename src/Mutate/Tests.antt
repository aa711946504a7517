-- ===== src/Mutate/Tests.antt =====
-- Runs of ws/libresmack_fuzz/src/mutate.cpp on recordings written out.
use resmack.Prelude.{ℕ, ◌≤◌, ◌≡◌, refl, ◌⊎◌, List, [], ◌∷◌, length, false, arith}
use resmack.Prelude.Outcome.{ok}
use resmack.Rand.{Rand, RandState, RandSnapshot}
use resmack.Mutate.{mutate_rand_snapshot}
use resmack.Mutate.Shape.{Mutated, drop_deeper}
use resmack.Mutate.Loop.{mutate_rand_snapshot-Mutated}

abbrev words : RandState
words = record { s0 = 7; s1 = 11; s2 = 13; s3 = 17 }

abbrev seeded : Rand
seeded = record { s = words; snapshots = []; should_record = false; use_last_gaussian = false }

abbrev snap : ℕ → ℕ → RandSnapshot
snap depth rule = record { ref_depth = depth; max_depth = 6; rule_idx = rule; state = words }

-- A root that calls rule 1, which calls rule 2, and then calls rule 3.
abbrev recording : List RandSnapshot
recording = snap 0 0 ∷ snap 1 1 ∷ snap 2 2 ∷ snap 1 3 ∷ []

mutate_rand_snapshot_example :
    (out : List RandSnapshot) × (r' : Rand) × (mutate_rand_snapshot seeded recording 10
      ≡ ok (out, r'))
    × (((length recording ≤ 1) × (out ≡ []))
        ⊎ ((first : RandSnapshot) × (rest : List RandSnapshot) × (rest' : List RandSnapshot)
            × (n : ℕ) × (recording ≡ first ∷ rest)
            × (out ≡ first ∷ rest')
            × (1 ≤ n)
            × (n ≤ 3)
            × Mutated 10 n rest rest'))
mutate_rand_snapshot_example =
    mutate_rand_snapshot-Mutated seeded recording 10 (omega arith) (omega arith)

drop_deeper_test : drop_deeper 1 (snap 2 2 ∷ snap 1 3 ∷ []) ≡ snap 1 3 ∷ []
unfolding drop_deeper
drop_deeper_test = refl
