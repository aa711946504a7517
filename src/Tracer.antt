-- ===== src/Tracer.antt =====
-- The process that launches fuzzing processes and waits for their end: ws/libresmack_fuzz/src/tracer.cpp
-- and the parent's side of `Spawn` in src/process_launchers/fork.cpp. `W` is the rest of the world:
-- other threads may change `should_run` there, so each load is a read of it. The operating system and
-- the unwinder are parameters, in `Os`; fork gives a new process. A pid is a number.
pub mod Stacks
pub mod Monitor
pub mod Kills
mod Tests
use resmack.Prelude.{
  ℕ, zero, suc, ◌+◌, ◌*◌, Bool, true, false, not, ◌&&◌, ◌||◌, List, [], ◌∷◌, ◌++◌, Option, none,
  some, ltb, leb, ◌==◌, if◌then◌else◌, length,
}
use resmack.Prelude.Int.{ℤ, pos, ◌-ℤ◌, ltb_ℤ}
use resmack.Prelude.Outcome.{Outcome, Fault, ok, fail, or_fail, guard, ◌>>=◌, ◌>>◌}
use resmack.Rand.{Rand, rand_bytes}
use resmack.Process.{SignalInfo, ExitReason, WaitMacros, normal, crash, timeout, load_signal_info}
use resmack.Tracee.{Tracee, AsanInfo, get_asan_info, reset}

pub record CrashInfo : Type 0 where
  pub crashed : Bool
  pub signal_info : SignalInfo
  pub major_stack : List ℕ
  pub minor_stack : List ℕ
  pub major_hash : List ℕ
  pub minor_hash : List ℕ

pub record Tracer : Type 0 where
  pub tracee : Tracee
  pub traced_pid : Option ℕ
  pub last_crash : CrashInfo

-- `stack_frames` walks the stack of a process: the name and offset of the innermost frame and of the frames
-- around it, none where the register cannot be read; it fails where no cursor can be made. `written`
-- is the tracee with what its process has written to the shared memory by now.
-- `fresh_rand` is the state of `Rand()`, and `is_target` is strstr with the name of the entry point.
pub record Os {ℓ} (W : Type ℓ) : Type ℓ where
  pub macros : WaitMacros
  pub should_run : W → Bool
  pub now : W → ℤ
  pub fork : W → ℕ × W
  pub waitpid : ℕ → W → Option ℕ × W
  pub ptrace_cont : ℕ → W → Bool × W
  pub kill : ℕ → W → W
  pub stack_frames : ℕ → W → Outcome (Option (List ℕ) × List (Option (List ℕ)))
  pub is_target : List ℕ → Bool
  pub sha1_hex : List ℕ → List ℕ
  pub written : W → Tracee → Tracee
  pub fresh_rand : W → Rand

-- The part of the loop of `CalcHashes` that appends a frame; `count` has been incremented by then.
unfoldable pub add_frame : ℕ → List ℕ → List ℕ × List ℕ → List ℕ × List ℕ
add_frame count sym (major_stack, minor_stack) = (
  if leb count 5
      then major_stack ++ ((if ltb 0 count then 10 ∷ [] else []) ++ sym)
      else major_stack,
  minor_stack ++ ((if ltb 1 count then 10 ∷ [] else []) ++ sym),
)

-- The `do` loop of `CalcHashes` at one frame, with the frames that unw_step goes on to.
unfoldable pub calc_loop :
    (List ℕ → Bool)
    → ℕ
    → Option (List ℕ)
    → List (Option (List ℕ))
    → List ℕ × List ℕ
    → Outcome (List ℕ × List ℕ)
unfolding add_frame
calc_loop is_target count none rest stacks = fail Fault.thrown
calc_loop is_target count (some sym) [] stacks = ok (add_frame (count + 1) sym stacks)
calc_loop is_target count (some sym) (next ∷ rest) stacks =
    let stacks' = add_frame (count + 1) sym stacks in
    let further = calc_loop is_target (count + 1) next rest stacks' in
    if is_target sym then ok stacks' else further

-- "unknown_exit"
abbrev pub unknown_exit : List ℕ
unknown_exit = 117 ∷ 110 ∷ 107 ∷ 110 ∷ 111 ∷ 119 ∷ 110 ∷ 95 ∷ 101 ∷ 120 ∷ 105 ∷ 116 ∷ []

-- The letters from a to z.
abbrev pub letters : ℕ → ℕ → List ℕ
letters zero from = []
letters (suc n) from = from ∷ letters n (from + 1)

module _ {ℓ} {W : Type ℓ} (os : Os W) where
  unfoldable pub calc_hashes : W → ℕ → CrashInfo → Outcome CrashInfo
  unfolding calc_loop
  calc_hashes w pid last = os.stack_frames pid w >>= λ fs.
      calc_loop os.is_target 0 fs.0 fs.1 ([], []) >>= λ stacks. ok (record last {
        major_stack = stacks.0;
        minor_stack = stacks.1;
        major_hash = os.sha1_hex stacks.0;
        minor_hash = os.sha1_hex stacks.1;
      })

  -- The name of a crash without a stack.
  unfoldable pub unknown_crash : W → CrashInfo → Outcome CrashInfo
  unknown_crash w last = rand_bytes (os.fresh_rand w) (letters 26 97) 10 >>= λ p. ok (record last {
    major_hash = unknown_exit;
    major_stack = unknown_exit;
    minor_stack = unknown_exit;
    minor_hash = p.0;
  })

  unfoldable pub process_crash : W → ℕ → SignalInfo → Tracer → Outcome Tracer
  unfolding calc_hashes unknown_crash
  process_crash w pid sig_info t =
      let started = record (t.last_crash) { crashed = true; signal_info = sig_info } in
      elim (get_asan_info t.tracee) [
        | some info ↦ ok (record t {
          last_crash = record started {
            major_stack = [];
            minor_stack = [];
            major_hash = info.major_hash;
            minor_hash = info.minor_hash;
          };
        })
        | none ↦ calc_hashes w pid (record started { major_hash = []; minor_hash = [] }) >>= λ last.
            (if length last.major_hash == 0 then unknown_crash w last else ok last) >>= λ last1.
            ok (record t { last_crash = last1 })
      ]

  -- The parent's side of `ForkLauncher::Spawn`.
  unfoldable pub spawn : Tracee → W → Outcome (ℕ × Tracee × W)
  spawn tracee w =
      let (pid, w1) = os.fork w in
      let (waited, w2) = os.waitpid pid w1 in
      or_fail waited Fault.thrown >>= λ status.
      let stopped = os.macros.wifstopped status && os.macros.wstopsig status == os.macros.sigstop in
      guard stopped Fault.thrown
      >> (let (continued, w3) = os.ptrace_cont pid w2 in
          guard continued Fault.thrown >> ok (pid, reset (os.now w) tracee, w3))

  unfoldable pub wait_for_exit : ℕ → W → Outcome (SignalInfo × W)
  wait_for_exit pid w =
      let (waited, w1) = os.waitpid pid w in
      or_fail waited Fault.thrown >>= λ status. ok (load_signal_info os.macros status, w1)

  -- A process that is stopped but has not ended is killed and reaped; the result of that wait is not
  -- looked at.
  unfoldable pub reap : SignalInfo → ℕ → W → W
  reap info pid w =
      if info.stopped && not info.exited then (os.waitpid pid (os.kill pid w)).1 else w

  -- The `switch` of `MonitorTracee`.
  unfoldable pub handle_exit :
      (exception_cb timeout_cb : ℕ → Tracer → W → Outcome W)
      → SignalInfo
      → ℕ
      → Tracer
      → W
      → Outcome (Tracer × W)
  unfolding process_crash reap
  handle_exit exception_cb timeout_cb info pid t w = elim info.exit_reason [
    | normal ↦ ok (t, w)
    | crash ↦ process_crash w pid info t >>= λ t1.
        exception_cb pid t1 w >>= λ w1. ok (t1, reap info pid w1)
    | timeout ↦ timeout_cb pid t w >>= λ w1. ok (t, w1)
  ]

  -- `MonitorTracee`, with fuel for the number of processes that are launched.
  unfoldable pub monitor_tracee :
      (exception_cb timeout_cb : ℕ → Tracer → W → Outcome W) → ℕ → Tracer → W → Outcome (Tracer × W)
  unfolding spawn wait_for_exit handle_exit
  monitor_tracee exception_cb timeout_cb zero t w =
      if os.should_run w then fail Fault.no_fuel else ok (t, w)
  monitor_tracee exception_cb timeout_cb (suc fuel) t w =
      let round = spawn t.tracee w >>= λ launched.
      let t1 = record t { traced_pid = some (launched.0); tracee = launched.1 } in
      wait_for_exit launched.0 launched.2 >>= λ ended.
      let t2 = record t1 { tracee = os.written ended.1 t1.tracee } in
      let handled = handle_exit exception_cb timeout_cb ended.0 launched.0 t2 ended.1 >>= λ q.
      monitor_tracee exception_cb timeout_cb fuel q.0 q.1 in
      if os.should_run ended.1 then handled else ok (t2, ended.1) in
      if os.should_run w then round else ok (t, w)

-- What the thread of `MonitorTraceeTimeout` sees when it wakes up.
pub record WakeUp : Type 0 where
  pub running : Bool
  pub pid : ℕ
  pub at : ℤ
  pub seen : Tracee

-- Whether the process is to be killed, with `second` ticks in a second: after 5 seconds in one
-- iteration or 600 in all.
unfoldable pub timed_out : ℕ → WakeUp → Bool
timed_out second wake =
    let started = wake.seen.basic_shared.iter_start in
    ltb_ℤ (pos 0) started
    && (not (ltb_ℤ (wake.at -ℤ started) (pos (5 * second)))
        || not (ltb_ℤ (wake.at -ℤ wake.seen.basic_shared.lifetime_start) (pos (600 * second))))

-- The processes that the thread kills over a sequence of wake-ups.
unfoldable pub monitor_timeout : ℕ → List WakeUp → List ℕ
unfolding timed_out
monitor_timeout second [] = []
monitor_timeout second (wake ∷ rest) =
    let later = monitor_timeout second rest in
    if wake.running then (if timed_out second wake then wake.pid ∷ [] else later) else []
