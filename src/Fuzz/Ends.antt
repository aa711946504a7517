-- ===== src/Fuzz/Ends.antt =====
-- That `FuzzLoop` of ws/libresmack_fuzz_main/src/main.cpp ends where there is a maximal number of
-- iterations.
use mathlib.Core.Path.{◌∙◌, sym, ap, subst}
use native.Mathlib.Nat.{mod-lt, mod-eq_of_lt, suc-mod, mod_self}
use resmack.Prelude.{
  ℕ, zero, suc, ◌+◌, ◌-◌, ◌%◌, ◌^◌, ◌≤◌, ◌<◌, ◌≡◌, ◌⊎◌, inl, inr, refl, Bool, true, false, Option,
  none, some, ltb, leb, ◌==◌, if◌then◌else◌, arith, Bool-cases, ltb→lt, ltb_false→le, leb→le,
  ne→==_false,
}
use resmack.Prelude.Outcome.{Outcome, ok, Holds, Holds-bind}
use resmack.Fuzz.Options.{FuzzOptions}
use resmack.Fuzz.{Host, FuzzState, reached_max, fuzz_round, fuzz_loop}
use resmack.Fuzz.Rounds.{Paced, fuzz_round-Paced}

leb_false→lt : (a b : ℕ) → leb a b ≡ false → b < a
leb_false→lt a b h = ground arith

-- One more, to a modulus: back to 0, or one more.
next_rem :
    (c n : ℕ)
    → 0 < n
    → (((c + 1) % n ≡ 0) × (c % n + 1 ≡ n)) ⊎ (((c + 1) % n ≡ c % n + 1) × (c % n + 1 < n))
next_rem c n h =
    let below : c % n < n = mod-lt c h in
    let step : (c + 1) % n ≡ suc (c % n) % n =
      subst (λ x. x % n ≡ suc (c % n) % n) (omega arith) (suc-mod c n) in
    elim (Bool-cases (ltb (suc (c % n)) n)) [
      | inl more ↦
          let lt = ltb→lt (suc (c % n)) n more in
          inr (step ∙ mod-eq_of_lt lt ∙ omega arith, omega (arith, lt))
      | inr last ↦
          let ge = ltb_false→le (suc (c % n)) n last in
          let e : suc (c % n) ≡ n = omega (arith, ge, below) in
          inl (step ∙ ap (λ x. x % n) e ∙ mod_self n, omega (arith, e))
    ]

abbrev left_of : ℕ → ℕ → ℕ → ℕ → ℕ
left_of x n i c = (x - i) + (n - c % n)

-- A turn counts or brings the end nearer.
fewer_left :
    (x n i c : ℕ)
    → 0 < n
    → x + n < 2 ^ 64
    → c + 1 < 2 ^ 64
    → i < x
    → let i' = if (c + 1) % 2 ^ 64 % n == 0 then (i + n) % 2 ^ 64 else i in
      (x ≤ i') ⊎ (left_of x n i' ((c + 1) % 2 ^ 64) < left_of x n i c)
fewer_left x n i c pos small short below =
    let unwrapped : (c + 1) % 2 ^ 64 ≡ c + 1 = omega arith in
    let raised : (i + n) % 2 ^ 64 ≡ i + n = omega arith in
    rw unwrapped (elim (next_rem c n pos) [
      | inl (at_end, full) ↦
          rw (at_end, raised)
            (elim (Bool-cases (leb x (i + n))) [
              | inl h ↦ inl (leb→le x (i + n) h)
              | inr h ↦ inr (omega (arith, leb_false→lt x (i + n) h, full))
            ])
      | inr (more, room) ↦
          rw (more, ne→==_false (c % n + 1) 0 (omega arith)) (inr (omega (arith, room)))
    ])

-- The turns after which a maximal number of iterations has been counted.
abbrev pub rounds_left : FuzzOptions → FuzzState → ℕ
rounds_left opts st =
    left_of opts.max_iters opts.stats_interval st.state.metadata.iterations st.counts

-- The loop was stopped.
abbrev pub Ended : Option FuzzState → Type 0
Ended o = (st : FuzzState) × (o ≡ some st) × (st.shutting_down ≡ true)

still_below :
    (opts : FuzzOptions) (st : FuzzState)
    → 0 < opts.max_iters
    → reached_max opts st.state ≡ false
    → st.state.metadata.iterations < opts.max_iters
unfolding reached_max
still_below opts st pos h = ground arith

abbrev Near : ℕ → ℕ → ℕ → ℕ → ℕ → Type 0
Near fuel x n i c = (x ≤ i) ⊎ (left_of x n i c ≤ fuel)

next-Near :
    (fuel x n i c : ℕ)
    → 0 < n
    → x + n < 2 ^ 64
    → c + suc fuel < 2 ^ 64
    → i < x
    → Near (suc fuel) x n i c
    → Near fuel x n (if (c + 1) % 2 ^ 64 % n == 0 then (i + n) % 2 ^ 64 else i) ((c + 1) % 2 ^ 64)
next-Near fuel x n i c pos small short below (inl over) = absurd (omega (arith, over))
next-Near fuel x n i c pos small short below (inr near) =
    elim (fewer_left x n i c pos small (omega arith) below) [
      | inl done ↦ inl done
      | inr fewer ↦ inr (omega (arith, fewer, near))
    ]

-- The head of the loop.
head_of_loop :
    (down reached : Bool) (st : FuzzState) (further : Outcome (Option FuzzState))
    → st.shutting_down ≡ down
    → (reached ≡ false → Holds Ended further)
    → Holds Ended (
        if down
        then ok (some st)
        else if reached
        then ok (some (record st { shutting_down = true }))
        else further)
head_of_loop true reached st further e k = (st, refl, e)
head_of_loop false true st further e k = (record st { shutting_down = true }, refl, refl)
head_of_loop false false st further e k = k refl

module _ (host : Host) (opts : FuzzOptions) (rule_idx : ℕ) (limited : 0 < opts.max_iters)
    (small : opts.max_iters + opts.stats_interval < 2 ^ 64) where
  IsNear : ℕ → FuzzState → Type 0
  IsNear fuel st =
      Near fuel opts.max_iters opts.stats_interval st.state.metadata.iterations st.counts

  next-IsNear :
      (fuel : ℕ) (st st' : FuzzState)
      → st.counts + suc fuel < 2 ^ 64
      → st.state.metadata.iterations < opts.max_iters
      → IsNear (suc fuel) st
      → Paced opts st st'
      → IsNear fuel st' × (st'.counts + fuel < 2 ^ 64)
  unfolding IsNear
  next-IsNear fuel st st' short below near (e, interval) =
      let counted : st'.counts ≡ (st.counts + 1) % 2 ^ 64 = ap (λ (q : ℕ × ℕ × Bool). q.0) e in
      let near' =
        next-Near fuel opts.max_iters opts.stats_interval st.state.metadata.iterations st.counts
          (omega (arith, interval)) small short below near in
      (
        subst (λ (q : ℕ × ℕ × Bool). Near fuel opts.max_iters opts.stats_interval q.1 q.0) (sym e)
            near',
        omega (arith, counted),
      )

  loop-Ended :
      (fuel : ℕ) (st : FuzzState)
      → st.counts + fuel < 2 ^ 64
      → IsNear fuel st
      → Holds Ended (fuzz_loop fuel host opts rule_idx st)
  unfolding fuzz_loop IsNear
  loop-Ended zero st short near =
      head_of_loop st.shutting_down (reached_max opts st.state) st (ok none) refl (λ on.
        let below = still_below opts st limited on in
        elim near [
          | inl over ↦ absurd (omega (arith, over, below))
          | inr none_left ↦ absurd (omega (arith, none_left, below))
        ])
  loop-Ended (suc fuel) st short near =
      head_of_loop st.shutting_down (reached_max opts st.state) st _ refl (λ on.
        Holds-bind (Paced opts st) Ended (fuzz_round host opts rule_idx st) _
          (fuzz_round-Paced host opts rule_idx st)
          (λ st1 p.
            let q = next-IsNear fuel st st1 short (still_below opts st limited on) near p in
            loop-Ended fuel st1 q.1 q.0))

  -- With a maximal number of iterations, below 2 ^ 64 with the interval, the loop never runs out of as
  -- many turns as `rounds_left` says, of which fewer than 2 ^ 64 are left to count: unless a turn
  -- fails, it stops.
  pub loop_ends :
      (fuel : ℕ) (st : FuzzState)
      → st.counts + fuel < 2 ^ 64
      → rounds_left opts st ≤ fuel
      → Holds Ended (fuzz_loop fuel host opts rule_idx st)
  unfolding IsNear
  loop_ends fuel st short enough = loop-Ended fuel st short (inr enough)
