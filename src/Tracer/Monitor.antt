-- ===== src/Tracer/Monitor.antt =====
-- The loop of `MonitorTracee` of ws/libresmack_fuzz/src/tracer.cpp with the exit reasons of
-- src/process_utils.cpp.
use resmack.Prelude.{
  ℕ, zero, suc, ◌≡◌, ◌≢◌, ◌⊎◌, inl, inr, refl, ap, ◌∙◌, Bool, true, false, if◌then◌else◌,
  ne→==_false, arith, Option-cases,
}
use resmack.Prelude.Outcome.{Outcome, ok, ◌>>=◌, bind_cong}
use resmack.Process.{SignalInfo, WaitMacros, normal, crash, load_signal_info}
use resmack.Tracer.{Tracer, Os, spawn, wait_for_exit, handle_exit, monitor_tracee}

killed_reason :
    (os : WaitMacros) (status : ℕ)
    → os.wifexited status ≡ false
    → os.wifstopped status ≡ false
    → os.wtermsig status ≢ os.sigabrt
    → (load_signal_info os status).exit_reason ≡ normal
unfolding load_signal_info
killed_reason os status not_exited not_stopped other =
    rw (not_exited, not_stopped, ne→==_false (os.wtermsig status) os.sigabrt other) (ground arith)

reason_cases :
    (os : WaitMacros) (status : ℕ)
    → ((load_signal_info os status).exit_reason ≡ normal)
      ⊎ ((load_signal_info os status).exit_reason ≡ crash)
unfolding load_signal_info
reason_cases os status = ground arith

module _ {ℓ} {W : Type ℓ} (os : Os W) where
  abbrev Callback : Type ℓ
  Callback = ℕ → Tracer → W → Outcome W

  -- A process that a signal other than SIGABRT has ended, as one that was killed for a timeout or by
  -- SIGSEGV, counts as having ended normally: no callback runs and nothing is recorded.
  pub killed_is_normal :
      (exception_cb timeout_cb : Callback) (status pid : ℕ) (t : Tracer) (w : W)
      → os.macros.wifexited status ≡ false
      → os.macros.wifstopped status ≡ false
      → os.macros.wtermsig status ≢ os.macros.sigabrt
      → handle_exit os exception_cb timeout_cb (load_signal_info os.macros status) pid t w
        ≡ ok (t, w)
  unfolding handle_exit
  killed_is_normal exception_cb timeout_cb status pid t w not_exited not_stopped other =
      rw (killed_reason os.macros status not_exited not_stopped other) refl

  handle_exit-same :
      (exception_cb cb cb' : Callback) (status pid : ℕ) (t : Tracer) (w : W)
      → handle_exit os exception_cb cb (load_signal_info os.macros status) pid t w
        ≡ handle_exit os exception_cb cb' (load_signal_info os.macros status) pid t w
  unfolding handle_exit
  handle_exit-same exception_cb cb cb' status pid t w = elim (reason_cases os.macros status) [
    | inl e ↦ rw e refl
    | inr e ↦ rw e refl
  ]

  wait_cong :
      (pid : ℕ) (w : W) (k k' : SignalInfo × W → Outcome (Tracer × W))
      → ((status : ℕ) (w' : W)
          → k (load_signal_info os.macros status, w') ≡ k' (load_signal_info os.macros status, w'))
      → (wait_for_exit os pid w >>= k) ≡ (wait_for_exit os pid w >>= k')
  unfolding wait_for_exit
  wait_cong pid w k k' h = elim (Option-cases (os.waitpid pid w).0) [
    | inl e ↦ rw e refl
    | inr (status, e) ↦ rw e (h status (os.waitpid pid w).1)
  ]

  if_cong :
      (b : Bool) (x x' y : Outcome (Tracer × W))
      → x ≡ x'
      → (if b then x else y) ≡ (if b then x' else y)
  if_cong true x x' y e = e
  if_cong false x x' y e = refl

  -- MonitorTracee does the same whatever the callback for timeouts is, since LoadSignalInfo never gives
  -- the reason Timeout: that callback is never called.
  pub monitor_ignores_timeout_cb :
      (exception_cb cb cb' : Callback) (fuel : ℕ) (t : Tracer) (w : W)
      → monitor_tracee os exception_cb cb fuel t w ≡ monitor_tracee os exception_cb cb' fuel t w
  unfolding monitor_tracee
  monitor_ignores_timeout_cb exception_cb cb cb' zero t w = refl
  monitor_ignores_timeout_cb exception_cb cb cb' (suc fuel) t w =
      if_cong (os.should_run w) _ _ (ok (t, w)) (
        bind_cong (spawn os t.tracee w) _ _ (λ launched.
          wait_cong launched.0 launched.2 _ _ (λ status w'. if_cong (os.should_run w') _ _ _ (
            ap (λ m. m >>= λ q. monitor_tracee os exception_cb cb fuel q.0 q.1)
              (handle_exit-same exception_cb cb cb' status launched.0 _ w')
            ∙ bind_cong
                (handle_exit os exception_cb cb' (load_signal_info os.macros status) launched.0 _
                  w')
                _ _ (λ q. monitor_ignores_timeout_cb exception_cb cb cb' fuel q.0 q.1)))))
