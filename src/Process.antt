-- ===== src/Process.antt =====
-- How a traced process ended: ws/libresmack_fuzz/src/process_utils.cpp and its header. The macros that
-- take a wait status apart and the numbers of the signals belong to the operating system: they are
-- parameters.
use resmack.Prelude.{ℕ, Bool, true, ◌&&◌, ◌||◌, List, [], ◌∷◌, ◌==◌, if◌then◌else◌}

pub data ExitReason : Type 0 where
  normal crash timeout : ExitReason

pub record SignalInfo : Type 0 where
  pub exit_reason : ExitReason
  pub stopped : Bool
  pub exited : Bool
  pub signaled : Bool
  pub exit_status : ℕ
  pub stop_signal : ℕ
  pub term_signal : ℕ

-- WIFEXITED and its like, and the signals that the code names.
pub record WaitMacros : Type 0 where
  pub wifexited : ℕ → Bool
  pub wexitstatus : ℕ → ℕ
  pub wifsignaled : ℕ → Bool
  pub wtermsig : ℕ → ℕ
  pub wifstopped : ℕ → Bool
  pub wstopsig : ℕ → ℕ
  pub sigsegv : ℕ
  pub sigabrt : ℕ
  pub sigbus : ℕ
  pub sigfpe : ℕ
  pub sigill : ℕ
  pub sigint : ℕ
  pub sigwinch : ℕ
  pub sigstop : ℕ

unfoldable pub is_crash_signal : WaitMacros → ℕ → Bool
is_crash_signal os signal =
    signal == os.sigsegv
    || (signal == os.sigabrt
        || (signal == os.sigbus || (signal == os.sigfpe || signal == os.sigill)))

abbrev pub asan_exit_code : ℕ
asan_exit_code = 199

unfoldable pub load_signal_info : WaitMacros → ℕ → SignalInfo
unfolding is_crash_signal
load_signal_info os status = record {
  exit_reason =
      if (os.wifexited status && os.wexitstatus status == asan_exit_code)
        || (os.wifstopped status && is_crash_signal os (os.wstopsig status))
        || (os.wifsignaled status && os.wtermsig status == os.sigabrt)
      then crash
      else normal;
  stopped = os.wifstopped status;
  exited = os.wifexited status;
  signaled = os.wifsignaled status;
  exit_status = os.wexitstatus status;
  stop_signal = os.wstopsig status;
  term_signal = os.wtermsig status;
}

-- The loop of `IgnoreBasicSignals` over the signals, where `ignore` installs SIG_IGN and says whether it
-- could.
unfoldable pub ignore_signals {ℓ} : {W : Type ℓ} → (ℕ → W → Bool × W) → List ℕ → W → Bool × W
ignore_signals ignore [] w = (true, w)
ignore_signals ignore (sig ∷ rest) w =
    let (installed, w1) = ignore sig w in
    let (success, w2) = ignore_signals ignore rest w1 in (installed && success, w2)

unfoldable pub ignore_basic_signals {ℓ} :
    {W : Type ℓ} → WaitMacros → (ℕ → W → Bool × W) → W → Bool × W
unfolding ignore_signals
ignore_basic_signals os ignore w = ignore_signals ignore (os.sigint ∷ os.sigwinch ∷ []) w
