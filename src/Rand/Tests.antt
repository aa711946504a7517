-- ===== src/Rand/Tests.antt =====
-- Runs of the generator of ws/libresmack/src/rand.cpp.
use resmack.Prelude.{some, ◌<◌, ◌≡◌, ◌^◌, refl, [], ◌∷◌, true, false, length, get_elem?, arith}
use resmack.Rand.{Rand, RandState, RandSnapshot, next, next_result, rotl, snapshot_state, set_state}
use resmack.Rand.Invariant.{IsSeeded, next-IsSeeded}
use resmack.Rand.Replay.{draws, replay_snapshot}

abbrev words : RandState
words = record { s0 = 7; s1 = 11; s2 = 13; s3 = 17 }

abbrev seeded : Rand
seeded = record { s = words; snapshots = []; should_record = true; use_last_gaussian = false }

abbrev other : Rand
other = record {
  s = record { s0 = 1; s1 = 2; s2 = 3; s3 = 4 };
  snapshots = record { ref_depth = 0; max_depth = 4; rule_idx = 2; state = words } ∷ [];
  should_record = false;
  use_last_gaussian = true;
}

words-IsSeeded : IsSeeded words
words-IsSeeded = record {
  words = record { w0 = omega arith; w1 = omega arith; w2 = omega arith; w3 = omega arith };
  nonzero = refl;
}

-- rotl(11 * 5, 7) * 9.
next_test : (next seeded).0 ≡ 63360
unfolding next next_result rotl
next_test = refl

next-IsSeeded_example :
    ((next seeded).0 < 2 ^ 32)
    × IsSeeded (next seeded).1.s
    × ((next seeded).1 ≡ record seeded { s = (next seeded).1.s })
next-IsSeeded_example = next-IsSeeded seeded words-IsSeeded

replay_snapshot_example :
    let r1 = (draws 3 seeded).1 in
    let r2 = snapshot_state r1 1 10 4 in
    (snap : RandSnapshot) × (get_elem? r2.snapshots (length r1.snapshots) ≡ some snap)
    × (snap.ref_depth ≡ 1)
    × (snap.max_depth ≡ 10)
    × (snap.rule_idx ≡ 4)
    × ((set_state other snap.state).0 ≡ false)
    × ((draws 5 (set_state other snap.state).1).0 ≡ (draws 5 r2).0)
replay_snapshot_example = replay_snapshot 3 5 1 10 4 seeded other words-IsSeeded
