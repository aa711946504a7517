-- ===== src/Tracer/Tests.antt =====
-- Runs of ws/libresmack_fuzz/src/tracer.cpp with the wait statuses of Linux, in a world that is the list
-- of the statuses still to come.
use mathlib.Core.List.{map}
use resmack.Prelude.{
  ℕ, ◌/◌, ◌%◌, ◌≡◌, ◌⊎◌, refl, Bool, true, false, not, ◌&&◌, List, [], ◌∷◌, ◌++◌, none, some, ltb,
  ◌==◌, length, drop, get_elem?, All,
}
use resmack.Prelude.Int.{pos, ◌-ℤ◌}
use resmack.Prelude.Outcome.{ok}
use resmack.Rand.{Rand}
use resmack.Tracee.{Tracee}
use resmack.Process.{WaitMacros, load_signal_info}
use resmack.Tracer.{Tracer, CrashInfo, Os, WakeUp, calc_hashes, monitor_timeout, timed_out}
use resmack.Tracer.Stacks.{calc_hashes-lines}
use resmack.Tracer.Kills.{Waits, Quiet, one_kill}

abbrev linux : WaitMacros
linux = record {
  wifexited = λ s. s % 128 == 0;
  wexitstatus = λ s. s / 256 % 256;
  wifsignaled = λ s. not (s % 128 == 0) && not (s % 256 == 127);
  wtermsig = λ s. s % 128;
  wifstopped = λ s. s % 256 == 127;
  wstopsig = λ s. s / 256 % 256;
  sigsegv = 11;
  sigabrt = 6;
  sigbus = 7;
  sigfpe = 8;
  sigill = 4;
  sigint = 2;
  sigwinch = 28;
  sigstop = 19;
}

abbrev seeded : Rand
seeded = record {
  s = record { s0 = 7; s1 = 11; s2 = 13; s3 = 17 };
  snapshots = [];
  should_record = false;
  use_last_gaussian = false;
}

abbrev starts_with_t : List ℕ → Bool
starts_with_t [] = false
starts_with_t (c ∷ f) = c == 84

-- The target's entry point is the frame "T".
abbrev os : Os (List ℕ)
os = record {
  macros = linux;
  should_run = λ w. ltb 0 (length w);
  now = λ w. pos 100;
  fork = λ w. (7, w);
  waitpid = λ pid w. (get_elem? w 0, drop 1 w);
  ptrace_cont = λ pid w. (true, w);
  kill = λ pid w. w;
  stack_frames = λ pid w. ok (some (65 ∷ []), map some ((66 ∷ []) ∷ (84 ∷ []) ∷ (67 ∷ []) ∷ []));
  is_target = starts_with_t;
  sha1_hex = λ s. s;
  written = λ w t. t;
  fresh_rand = λ w. seeded;
}

abbrev tracee : Tracee
tracee = record {
  idx = 0;
  basic_shared = record {
    iter_start = pos 10;
    lifetime_start = pos 5;
    last_corpus_index1 = 0;
    last_corpus_index2 = 0;
    last_max_depth = 0;
    last_used_corpus = false;
    num_states = 0;
    states = [];
  };
  asan_shared = record { exists = false; major_hash = []; minor_hash = []; report = [] };
}

abbrev no_crash : CrashInfo
no_crash = record {
  crashed = false;
  signal_info = load_signal_info linux 0;
  major_stack = [];
  minor_stack = [];
  major_hash = [];
  minor_hash = [];
}

abbrev tracer : Tracer
tracer = record { tracee = tracee; traced_pid = none; last_crash = no_crash }

-- A, B and T: C lies behind the entry point.
calc_hashes-lines_example :
    calc_hashes os [] 7 no_crash
    ≡ ok (record no_crash {
      major_stack = 10 ∷ 65 ∷ 10 ∷ 66 ∷ 10 ∷ 84 ∷ [];
      minor_stack = 65 ∷ 10 ∷ 66 ∷ 10 ∷ 84 ∷ [];
      major_hash = 10 ∷ 65 ∷ 10 ∷ 66 ∷ 10 ∷ 84 ∷ [];
      minor_hash = 65 ∷ 10 ∷ 66 ∷ 10 ∷ 84 ∷ [];
    })
calc_hashes-lines_example =
    calc_hashes-lines os [] 7 no_crash (65 ∷ []) ((66 ∷ []) ∷ (84 ∷ []) ∷ (67 ∷ []) ∷ []) refl

abbrev at_time : ℕ → ℕ → WakeUp
at_time pid now = record { running = true; pid = pid; at = pos now; seen = tracee }

one_kill_example :
    (Quiet 1 (at_time 7 14 ∷ at_time 7 15 ∷ at_time 8 99 ∷ [])
      × (monitor_timeout 1 (at_time 7 14 ∷ at_time 7 15 ∷ at_time 8 99 ∷ []) ≡ []))
    ⊎ ((before : List WakeUp) × (wake : WakeUp) × (after : List WakeUp) × (at_time 7 14
            ∷ at_time 7 15
            ∷ at_time 8 99
            ∷ []
          ≡ before ++ wake ∷ after)
        × All (Waits 1) before
        × (timed_out 1 wake ≡ true)
        × (monitor_timeout 1 (at_time 7 14 ∷ at_time 7 15 ∷ at_time 8 99 ∷ []) ≡ wake.pid ∷ []))
one_kill_example = one_kill 1 (at_time 7 14 ∷ at_time 7 15 ∷ at_time 8 99 ∷ [])

-- At 14 nothing, at 15 process 7, and process 8 is never killed.
kills_first : monitor_timeout 1 (at_time 7 14 ∷ at_time 7 15 ∷ at_time 8 99 ∷ []) ≡ 7 ∷ []
unfolding monitor_timeout timed_out ◌-ℤ◌
kills_first = refl
