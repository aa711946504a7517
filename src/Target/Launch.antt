-- ===== src/Target/Launch.antt =====
-- What `DirectTarget::Launch` (ws/libresmack_fuzz/src/targets/direct.cpp) reports.
use mathlib.Core.Path.{subst, sym, ap, ◌∙◌}
use resmack.Prelude.{ℕ, ◌-◌, ◌≡◌, refl, true, false, List, ◌⊎◌, inl, inr, Bool-cases}
use resmack.Prelude.Int.{ℤ, negsuc}
use resmack.Prelude.Outcome.{ok, >>=-eq-ok}
use resmack.Coverage.{CoverageData, fpo_start, fpo_stop}
use resmack.Target.{
  TargetStats, LaunchTimes, Program, SampleTypes, feedback, target, is_sampled, sample,
  start_sample, stop_sample, put, reset_stats, trace_all, to_bool, launch,
}

ok_inj {ℓ} : {A : Type ℓ} {a b : A} → ok a ≡ ok b → a ≡ b
ok_inj e = cc

sample_on :
    (type : SampleTypes) (times : ℕ × ℕ) (stats : TargetStats)
    → is_sampled stats ≡ true
    → sample type times stats ≡ record stats {
      start = put stats.start type times.0;
      duration = put stats.duration type (times.1 - put stats.start type times.0 type);
    }
unfolding sample start_sample stop_sample is_sampled
sample_on type times stats h = rw h (rw h refl)

-- The statistics after a launch on a sampled tick.
abbrev launched : LaunchTimes → ℤ → TargetStats → TargetStats
launched times result stats =
    let s1 = sample feedback times.fpo_start_at (reset_stats stats) in
    sample feedback times.fpo_stop_at
      (record (sample target times.test_at s1) { valid = to_bool result })

launched_cases :
    (times : LaunchTimes) (result : ℤ) (stats : TargetStats)
    → is_sampled stats ≡ true
    → ((launched times result stats).valid ≡ to_bool result)
      × ((launched times result stats).exit_code ≡ negsuc 0)
      × ((launched times result stats).duration feedback
          ≡ times.fpo_stop_at.1 - times.fpo_stop_at.0)
      × ((launched times result stats).duration target ≡ times.test_at.1 - times.test_at.0)
unfolding reset_stats is_sampled
launched_cases times result stats h =
    let s0 = reset_stats stats in
    let s1 = record s0 {
      start = put s0.start feedback times.fpo_start_at.0;
      duration =
          put s0.duration feedback
            (times.fpo_start_at.1 - put s0.start feedback times.fpo_start_at.0 feedback);
    } in
    let s2 = record s1 {
      start = put s1.start target times.test_at.0;
      duration =
          put s1.duration target (times.test_at.1 - put s1.start target times.test_at.0 target);
      valid = to_bool result;
    } in
    rw
      (
        sample_on feedback times.fpo_start_at s0 h,
        sample_on target times.test_at s1 h,
        sample_on feedback times.fpo_stop_at s2 h,
      )
      (refl, refl, refl, refl)

unsampled :
    (type : SampleTypes) (times : ℕ × ℕ) (stats : TargetStats)
    → is_sampled stats ≡ false
    → sample type times stats ≡ stats
unfolding sample start_sample stop_sample is_sampled
unsampled type times stats h = rw h (rw h refl)

-- The durations that a launch leaves: those of its samples on a tick that is sampled, else the old ones.
abbrev pub Timed : LaunchTimes → TargetStats → TargetStats → Type 0
Timed times stats stats' =
    ((is_sampled stats ≡ true)
      × (stats'.duration feedback ≡ times.fpo_stop_at.1 - times.fpo_stop_at.0)
      × (stats'.duration target ≡ times.test_at.1 - times.test_at.0))
    ⊎ ((is_sampled stats ≡ false) × (stats'.duration ≡ stats.duration))

launched-Timed :
    (times : LaunchTimes) (result : ℤ) (stats : TargetStats)
    → ((launched times result stats).valid ≡ to_bool result)
      × ((launched times result stats).exit_code ≡ negsuc 0)
      × Timed times stats (launched times result stats)
unfolding reset_stats is_sampled
launched-Timed times result stats = elim (Bool-cases (is_sampled stats)) [
  | inl on ↦
      let (valid, code, fed, tested) = launched_cases times result stats on in
      (valid, code, inl (on, fed, tested))
  | inr off ↦
      let s0 = reset_stats stats in
      rw
        (
          unsampled feedback times.fpo_start_at s0 off,
          unsampled target times.test_at s0 off,
          unsampled feedback times.fpo_stop_at (record s0 { valid = to_bool result }) off,
        )
        (refl, refl, inr (off, refl))
]

-- On every tick, a launch that returns leaves the coverage that FPOStop makes of the data that FPOStart
-- leaves and the guards that the program passes on the input, each hit once in their order; `valid` says whether the program returned a number other than 0,
-- the exit code is -1. On a tick that is sampled, FEEDBACK has the time of FPOStop alone, that of FPOStart
-- being overwritten, and TARGET that of the run; on any other, the durations stay.
pub launch_reports :
    (times : LaunchTimes) (calc_hash : List ℕ → ℕ) (program : Program) (output : List ℕ)
    (stats stats' : TargetStats) (d s d' s' : CoverageData)
    → launch times calc_hash program output stats d s ≡ ok (stats', d', s')
    → (guards : List ℕ) × (result : ℤ) × (d1 : CoverageData) × (program output
        ≡ ok (guards, result))
      × (trace_all guards (fpo_start d) ≡ ok d1)
      × (fpo_stop calc_hash d1 s ≡ ok (d', s'))
      × (stats'.valid ≡ to_bool result)
      × (stats'.exit_code ≡ negsuc 0)
      × Timed times stats stats'
unfolding launch
launch_reports times calc_hash program output stats stats' d s d' s' h =
    let (ran, e, h1) = >>=-eq-ok (program output) _ h in
    let (d1, e1, h2) = >>=-eq-ok (trace_all ran.0 (fpo_start d)) _ h1 in
    let (q, e2, fin) = >>=-eq-ok (fpo_stop calc_hash d1 s) _ h2 in
    let last = ok_inj fin in
    let (valid, code, timed) = launched-Timed times ran.1 stats in
    (
      ran.0,
      ran.1,
      d1,
      e,
      e1,
      e2 ∙ ap (λ (p : TargetStats × CoverageData × CoverageData). ok (p.1, p.2)) last,
      sym (ap (λ (p : TargetStats × CoverageData × CoverageData). p.0.valid) last) ∙ valid,
      sym (ap (λ (p : TargetStats × CoverageData × CoverageData). p.0.exit_code) last) ∙ code,
      subst (Timed times stats) (ap (λ (p : TargetStats × CoverageData × CoverageData). p.0) last)
          timed,
    )
