-- ===== src/Tracee/Replay.antt =====
-- The recording that is kept for the tracing process: `SaveLastReplay` and `LoadLastReplay` of
-- ws/libresmack_fuzz/src/tracee.cpp.
use resmack.Prelude.{
  ℕ, zero, suc, ◌^◌, ◌≤◌, ◌<◌, ◌≡◌, refl, List, [], ◌∷◌, ◌++◌, length, take, drop, arith,
  lt→leb_false, le→leb,
}
use resmack.Prelude.Outcome.{Fault, ok, fail}
use resmack.Rand.{RandSnapshot}
use resmack.Tracee.{Tracee, write_states, save_last_replay, read_states, load_last_replay}

write_states-ok :
    (xs states : List RandSnapshot)
    → length xs ≤ length states
    → write_states xs states ≡ ok (xs ++ drop (length xs) states)
unfolding write_states
write_states-ok [] states h = refl
write_states-ok (x ∷ xs) [] h = absurd (omega arith)
write_states-ok (x ∷ xs) (y ∷ states) h = rw (write_states-ok xs states (omega arith)) refl

read_states_all : (xs states : List RandSnapshot) → read_states (length xs) (xs ++ states) ≡ ok xs
unfolding read_states
read_states_all [] states = refl
read_states_all (x ∷ xs) states = rw (read_states_all xs states) refl

read_states-take :
    (n : ℕ) (states : List RandSnapshot)
    → n ≤ length states
    → read_states n states ≡ ok (take n states)
unfolding read_states
read_states-take zero states h = refl
read_states-take (suc n) [] h = absurd (omega arith)
read_states-take (suc n) (x ∷ states) h = rw (read_states-take n states (omega arith)) refl

-- Where the array has room, a recording of fewer than 2 ^ 16 snapshots is saved, and loading appends
-- exactly this recording.
pub save_then_load :
    (replay dest : List RandSnapshot) (t : Tracee)
    → length replay < 2 ^ 16
    → length replay ≤ length t.basic_shared.states
    → ((save_last_replay replay t).0 ≡ ok tt)
      × (load_last_replay (save_last_replay replay t).1 dest ≡ ok (dest ++ replay))
unfolding save_last_replay load_last_replay
save_then_load replay dest t small room =
    rw
      (
        lt→leb_false (2 ^ 16) (length replay) small,
        write_states-ok replay t.basic_shared.states room,
        read_states_all replay (drop (length replay) t.basic_shared.states),
      )
      (refl, refl)

pub saved_used_corpus :
    (replay : List RandSnapshot) (t : Tracee)
    → length replay < 2 ^ 16
    → length replay ≤ length t.basic_shared.states
    → (save_last_replay replay t).1.basic_shared.last_used_corpus ≡ t.basic_shared.last_used_corpus
unfolding save_last_replay
saved_used_corpus replay t small room =
    rw
      (
        lt→leb_false (2 ^ 16) (length replay) small,
        write_states-ok replay t.basic_shared.states room,
      )
      refl

-- A recording of 2 ^ 16 snapshots or more is refused by an exception, but the number of states has
-- been written by then: where the array is as long, loading gives that many of the old states.
pub refused_then_load :
    (replay dest : List RandSnapshot) (t : Tracee)
    → 2 ^ 16 ≤ length replay
    → length replay ≤ length t.basic_shared.states
    → ((save_last_replay replay t).0 ≡ fail Fault.thrown)
      × (load_last_replay (save_last_replay replay t).1 dest
          ≡ ok (dest ++ take (length replay) t.basic_shared.states))
unfolding save_last_replay load_last_replay
refused_then_load replay dest t big room =
    rw
      (
        le→leb (2 ^ 16) (length replay) big,
        read_states-take (length replay) t.basic_shared.states room,
      )
      (refl, refl)
