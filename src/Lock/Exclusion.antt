-- ===== src/Lock/Exclusion.antt =====
-- Processes that share one lock of ws/libresmack_fuzz/src/lock.cpp: a step is one call of one process, in
-- any order.
use mathlib.Core.Path.{sym, ap, subst}
use resmack.Prelude.{
  ℕ, zero, suc, ◌+◌, ◌≤◌, ◌<◌, ◌≡◌, ◌≢◌, refl, Bool, true, false, List, [], ◌∷◌, some, get_elem?,
  set, replicate, arith, Option-cases, inl, inr,
}
use resmack.Lock.{
  Posix, PosixLaws, Lock, anonymous_lock, free_lock, acquire, try_lock, unlock, get_value,
}

-- The system and, for each process, whether it is between `lock` and `unlock`.
pub record System (K : Type 0) : Type 0 where
  pub kernel : K
  pub inside : List Bool

pub data Step {K : Type 0} (os : Posix K) (l : Lock) (s : System K) : System K → Type 0 where
  enter :
      (i : ℕ) {k' : K}
      → get_elem? s.inside i ≡ some false
      → acquire os l s.kernel ≡ some k'
      → Step os l s (record { kernel = k'; inside = set s.inside i true })
  try_enter :
      (i : ℕ) {k' : K}
      → get_elem? s.inside i ≡ some false
      → try_lock os l s.kernel ≡ (true, k')
      → Step os l s (record { kernel = k'; inside = set s.inside i true })
  try_busy :
      (i : ℕ) {k' : K}
      → get_elem? s.inside i ≡ some false
      → try_lock os l s.kernel ≡ (false, k')
      → Step os l s (record s { kernel = k' })
  leave :
      (i : ℕ)
      → get_elem? s.inside i ≡ some true
      → Step os l s (record { kernel = unlock os l s.kernel; inside = set s.inside i false })

-- Reachable from a system in which `n` processes are outside.
pub data Reach {K : Type 0} (os : Posix K) (l : Lock) (k : K) (n : ℕ) : System K → Type 0 where
  start : Reach os l k n (record { kernel = k; inside = replicate n false })
  later : {s t : System K} → Reach os l k n s → Step os l s t → Reach os l k n t

abbrev pub count_inside : List Bool → ℕ
count_inside [] = 0
count_inside (true ∷ l) = suc (count_inside l)
count_inside (false ∷ l) = count_inside l

none_inside : (n : ℕ) → count_inside (replicate n false) ≡ 0
none_inside zero = refl
none_inside (suc n) = none_inside n

pub one_more :
    (l : List Bool) (i : ℕ)
    → get_elem? l i ≡ some false
    → count_inside (set l i true) ≡ count_inside l + 1
one_more [] i h = cc
one_more (true ∷ l) zero h = cc
one_more (false ∷ l) zero h = omega arith
one_more (true ∷ l) (suc i) h = omega (arith, one_more l i h)
one_more (false ∷ l) (suc i) h = one_more l i h

pub one_less :
    (l : List Bool) (i : ℕ)
    → get_elem? l i ≡ some true
    → count_inside (set l i false) + 1 ≡ count_inside l
one_less [] i h = cc
one_less (true ∷ l) zero h = omega arith
one_less (false ∷ l) zero h = cc
one_less (true ∷ l) (suc i) h = omega (arith, one_less l i h)
one_less (false ∷ l) (suc i) h = one_less l i h

pub positive : (l : List Bool) (i : ℕ) → get_elem? l i ≡ some true → 0 < count_inside l
positive l i h = omega (arith, one_less l i h)

false_ne_true : false ≢ true
false_ne_true e = cc

-- Of at most one process, two are the same.
only_one :
    (l : List Bool) (i j : ℕ)
    → count_inside l ≤ 1
    → get_elem? l i ≡ some true
    → get_elem? l j ≡ some true
    → i ≡ j
only_one [] i j h a b = cc
only_one (x ∷ l) zero zero h a b = refl
only_one (true ∷ l) zero (suc j) h a b = absurd (omega (arith, positive l j b))
only_one (false ∷ l) zero (suc j) h a b = cc
only_one (true ∷ l) (suc i) zero h a b = absurd (omega (arith, positive l i a))
only_one (false ∷ l) (suc i) zero h a b = cc
only_one (true ∷ l) (suc i) (suc j) h a b = ap suc (only_one l i j (omega arith) a b)
only_one (false ∷ l) (suc i) (suc j) h a b = ap suc (only_one l i j h a b)

module _ {K : Type 0} (os : Posix K) (laws : PosixLaws os) (l : Lock) where
  -- The semaphore and the processes inside make one.
  unfoldable pub Balanced : System K → Type 0
  Balanced s = get_value os l s.kernel + count_inside s.inside ≡ 1

  pub try_lock_takes :
      (k k' : K) → try_lock os l k ≡ (true, k') → get_value os l k' + 1 ≡ get_value os l k
  unfolding try_lock get_value
  try_lock_takes k k' h = elim (Option-cases (os.sem_trywait l.sem k)) [
    | inl busy ↦ absurd (false_ne_true (ap (λ (p : Bool × K). p.0) (rw (busy, try_lock) at h)))
    | inr (k1, e) ↦
        subst (λ x. os.sem_getvalue l.sem x + 1 ≡ os.sem_getvalue l.sem k)
          (ap (λ (p : Bool × K). p.1) (rw (e, try_lock) at h)) (laws.trywait_takes l.sem k e)
  ]

  try_lock_busy : (k k' : K) → try_lock os l k ≡ (false, k') → k ≡ k'
  unfolding try_lock
  try_lock_busy k k' h = elim (Option-cases (os.sem_trywait l.sem k)) [
    | inl busy ↦ ap (λ (p : Bool × K). p.1) (rw (busy, try_lock) at h)
    | inr (k1, e) ↦
        absurd (false_ne_true (sym (ap (λ (p : Bool × K). p.0) (rw (e, try_lock) at h))))
  ]

  pub Step-Balanced : {s t : System K} → Step os l s t → Balanced s → Balanced t
  unfolding Balanced acquire unlock get_value
  Step-Balanced {s} (enter i out e) h =
      omega (arith, laws.wait_takes l.sem s.kernel e, one_more s.inside i out)
  Step-Balanced {s} (try_enter i out e) h =
      omega (arith, try_lock_takes s.kernel _ e, one_more s.inside i out)
  Step-Balanced {s} (try_busy i out e) h =
      subst (λ x. os.sem_getvalue l.sem x + count_inside s.inside ≡ 1) (try_lock_busy s.kernel _ e)
        h
  Step-Balanced {s} (leave i is_in) h =
      omega (arith, laws.post_adds l.sem s.kernel, one_less s.inside i is_in)

  pub Reach-Balanced :
      {k : K} {n : ℕ} {s : System K} → get_value os l k ≡ 1 → Reach os l k n s → Balanced s
  unfolding Balanced
  Reach-Balanced {n} free start = omega (arith, free, none_inside n)
  Reach-Balanced free (later r step) = Step-Balanced step (Reach-Balanced free r)

-- A new anonymous lock is free.
pub anonymous_lock_free :
    {K : Type 0} (os : Posix K)
    → PosixLaws os
    → (name : List ℕ) (k : K)
    → let made = anonymous_lock os name k in get_value os made.0 made.1 ≡ 1
unfolding anonymous_lock free_lock get_value
anonymous_lock_free os laws name k = rw (laws.new_value 1 k) (laws.new_value 1 k)

-- However the calls of any number of processes on one anonymous lock follow on each other, never are two
-- of them between `lock`, or a successful `try_lock`, and `unlock`.
pub mutual_exclusion :
    {K : Type 0} (os : Posix K)
    → PosixLaws os
    → (name : List ℕ) (k : K) (n : ℕ) {s : System K}
    → Reach os (anonymous_lock os name k).0 (anonymous_lock os name k).1 n s
    → (i j : ℕ) → get_elem? s.inside i ≡ some true
    → get_elem? s.inside j ≡ some true
    → i ≡ j
unfolding Balanced
mutual_exclusion os laws name k n {s} r i j a b =
    let l = (anonymous_lock os name k).0 in
    let balanced = Reach-Balanced os laws l (anonymous_lock_free os laws name k) r in
    only_one s.inside i j (omega (arith, balanced)) a b
