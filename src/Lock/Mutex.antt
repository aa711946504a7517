-- ===== src/Lock/Mutex.antt =====
-- What a lock of ws/libresmack_fuzz/src/lock.cpp promises, as a mutex that knows its holder, and the
-- refinement of this view by the calls on the semaphore.
use resmack.Prelude.{
  ℕ, zero, suc, ◌≤◌, ◌≡◌, ◌≢◌, refl, Bool, true, false, List, [], ◌∷◌, Option, none, some,
  get_elem?, set, arith, ◌⊎◌, inl, inr, Option-cases,
}
use resmack.Lock.{Posix, PosixLaws, Lock, anonymous_lock, acquire, get_value}
use resmack.Lock.Exclusion.{
  System, Step, Reach, enter, try_enter, try_busy, leave, Balanced, Reach-Balanced, Step-Balanced,
  anonymous_lock_free, count_inside, one_more, one_less, positive, try_lock_takes,
}

-- The mutex is free or has a holder.
pub data MutexStep : Option ℕ → Option ℕ → Type 0 where
  take : (i : ℕ) → MutexStep none (some i)
  stay : (h : Option ℕ) → MutexStep h h
  give : (i : ℕ) → MutexStep (some i) none

unfoldable pub up : Option ℕ → Option ℕ
up none = none
up (some i) = some (suc i)

unfoldable pub holder : List Bool → Option ℕ
holder [] = none
holder (true ∷ l) = some 0
holder (false ∷ l) = up (holder l)

holder-eq-none : (l : List Bool) → count_inside l ≡ 0 → holder l ≡ none
unfolding holder up
holder-eq-none [] h = refl
holder-eq-none (true ∷ l) h = cc
holder-eq-none (false ∷ l) h = rw (holder-eq-none l h) refl

holder-eq-some :
    (l : List Bool) (i : ℕ) → count_inside l ≡ 1 → get_elem? l i ≡ some true → holder l ≡ some i
unfolding holder up
holder-eq-some [] i h g = cc
holder-eq-some (true ∷ l) zero h g = refl
holder-eq-some (true ∷ l) (suc i) h g = absurd (omega (arith, positive l i g))
holder-eq-some (false ∷ l) zero h g = cc
holder-eq-some (false ∷ l) (suc i) h g = rw (holder-eq-some l i h g) refl

found_there :
    (l : List Bool) (i : ℕ) {x y : Bool} → get_elem? l i ≡ some x → get_elem? (set l i y) i ≡ some y
found_there [] i h = cc
found_there (x ∷ l) zero h = refl
found_there (x ∷ l) (suc i) h = found_there l i h

up-ne-none : (i : ℕ) → up (some i) ≢ none
unfolding up
up-ne-none i e = cc

free_or_held : (l : List Bool) → (holder l ≡ none) ⊎ ((i : ℕ) × (holder l ≡ some i))
free_or_held l = Option-cases (holder l)

none_inside_if_free : (l : List Bool) → holder l ≡ none → count_inside l ≡ 0
unfolding holder
none_inside_if_free [] h = refl
none_inside_if_free (true ∷ l) h = cc
none_inside_if_free (false ∷ l) h = elim (free_or_held l) [
  | inl free ↦ none_inside_if_free l free
  | inr (i, held) ↦ absurd (up-ne-none i (rw held at h))
]

taken :
    (l : List Bool) (i : ℕ)
    → get_elem? l i ≡ some false
    → count_inside l ≡ 0
    → MutexStep (holder l) (holder (set l i true))
taken l i out h =
    let one : count_inside (set l i true) ≡ 1 = omega (arith, one_more l i out) in
    rw (holder-eq-none l h, holder-eq-some (set l i true) i one (found_there l i out)) (take i)

given :
    (l : List Bool) (i : ℕ)
    → get_elem? l i ≡ some true
    → count_inside l ≤ 1
    → MutexStep (holder l) (holder (set l i false))
given l i is_in h =
    let one : count_inside l ≡ 1 = omega (arith, positive l i is_in) in
    let left : count_inside (set l i false) ≡ 0 = omega (arith, one_less l i is_in) in
    rw (holder-eq-some l i one is_in, holder-eq-none (set l i false) left) (give i)

module _ {K : Type 0} (os : Posix K) (laws : PosixLaws os) (l : Lock) where
  Step-MutexStep :
      {s t : System K}
      → Step os l s t
      → Balanced os laws l s
      → MutexStep (holder s.inside) (holder t.inside)
  unfolding Balanced acquire get_value
  Step-MutexStep {s} (enter i out e) h =
      taken s.inside i out (omega (arith, laws.wait_takes l.sem s.kernel e, h))
  Step-MutexStep {s} (try_enter i out e) h =
      taken s.inside i out (omega (arith, try_lock_takes os laws l s.kernel _ e, h))
  Step-MutexStep {s} (try_busy i out e) h = stay (holder s.inside)
  Step-MutexStep {s} (leave i is_in) h = given s.inside i is_in (omega (arith, h))

  held_or_free :
      (s : System K)
      → Balanced os laws l s
      → ((i : ℕ) × (holder s.inside ≡ some i)) ⊎ ((k : K) × (acquire os l s.kernel ≡ some k))
  unfolding Balanced acquire get_value
  held_or_free s h = elim (free_or_held s.inside) [
    | inr held ↦ inl held
    | inl free ↦
        inr (laws.wait_free l.sem s.kernel (omega (arith, none_inside_if_free s.inside free, h)))
  ]

-- Each call of a process on an anonymous lock, in a state that is reachable, is a step of a mutex that
-- knows its holder, from free to held, from held to free, or none; after the call a process is the
-- holder, or acquiring the lock does not block.
pub lock_refines_mutex :
    {K : Type 0} (os : Posix K)
    → PosixLaws os
    → (name : List ℕ) (k : K) (n : ℕ) {s t : System K}
    → Reach os (anonymous_lock os name k).0 (anonymous_lock os name k).1 n s
    → Step os (anonymous_lock os name k).0 s t
    → MutexStep (holder s.inside) (holder t.inside)
      × (((i : ℕ) × (holder t.inside ≡ some i))
          ⊎ ((k' : K) × (acquire os (anonymous_lock os name k).0 t.kernel ≡ some k')))
lock_refines_mutex os laws name k n {s} {t} r step =
    let l = (anonymous_lock os name k).0 in
    let balanced = Reach-Balanced os laws l (anonymous_lock_free os laws name k) r in
    (
      Step-MutexStep os laws l step balanced,
      held_or_free os laws l t (Step-Balanced os laws l step balanced),
    )
