-- ===== src/Tracer/Kills.antt =====
-- The thread of `MonitorTraceeTimeout` of ws/libresmack_fuzz/src/tracer.cpp.
use resmack.Prelude.{
  ℕ, ◌≡◌, ◌⊎◌, inl, inr, refl, ap, true, false, List, [], ◌∷◌, ◌++◌, All, Bool-cases,
}
use resmack.Tracer.{WakeUp, timed_out, monitor_timeout}

-- A wake-up after which the thread goes on to wait.
abbrev pub Waits : ℕ → WakeUp → Type 0
Waits second wake = (wake.running ≡ true) × (timed_out second wake ≡ false)

-- The thread has gone on to wait until the end of what it sees, or until it is told not to run.
abbrev pub Quiet : ℕ → List WakeUp → Type 0
Quiet second wakes =
    All (Waits second) wakes
    ⊎ ((before : List WakeUp) × (wake : WakeUp) × (after : List WakeUp) × (wakes
          ≡ before ++ wake ∷ after)
        × All (Waits second) before
        × (wake.running ≡ false))

Quiet-cons :
    (second : ℕ) (wake : WakeUp) (rest : List WakeUp)
    → Waits second wake
    → Quiet second rest
    → Quiet second (wake ∷ rest)
Quiet-cons second wake rest w (inl all) = inl (w, all)
Quiet-cons second wake rest w (inr (before, told, after, e, waits, stop)) =
    inr (wake ∷ before, told, after, ap (λ l. wake ∷ l) e, (w, waits), stop)

-- The thread kills the process that it sees at the first wake-up at which this has timed out, and no
-- other afterwards, whatever the later wake-ups would show; it kills nothing only where it is told not to
-- run, or the wake-ups end, before any process has timed out.
pub one_kill :
    (second : ℕ) (wakes : List WakeUp)
    → (Quiet second wakes × (monitor_timeout second wakes ≡ []))
      ⊎ ((before : List WakeUp) × (wake : WakeUp) × (after : List WakeUp) × (wakes
            ≡ before ++ wake ∷ after)
          × All (Waits second) before
          × (timed_out second wake ≡ true)
          × (monitor_timeout second wakes ≡ wake.pid ∷ []))
unfolding monitor_timeout
one_kill second [] = inl (inl tt, refl)
one_kill second (wake ∷ rest) = elim (Bool-cases wake.running) [
  | inr stopped ↦ inl (inr ([], wake, rest, refl, tt, stopped), rw stopped refl)
  | inl runs ↦ elim (Bool-cases (timed_out second wake)) [
    | inl late ↦ inr ([], wake, rest, refl, tt, late, rw (runs, late) refl)
    | inr early ↦ elim (one_kill second rest) [
      | inl quiet ↦
          inl (Quiet-cons second wake rest (runs, early) quiet.0, rw (runs, early) quiet.1)
      | inr (before, w, after, e, waits, late, killed) ↦ inr (
        wake ∷ before,
        w,
        after,
        ap (λ l. wake ∷ l) e,
        ((runs, early), waits),
        late,
        rw (runs, early) killed,
      )
    ]
  ]
]
