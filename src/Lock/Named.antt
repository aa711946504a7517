-- ===== src/Lock/Named.antt =====
-- Locks with a name (ws/libresmack_fuzz/src/lock.cpp). `NameLaws` is what POSIX says of the names of
-- semaphores, where there is room for one more: sem_unlink frees a name and leaves the semaphore to those
-- that have it open; sem_open with O_CREAT | O_EXCL fails for a name that is taken and makes a new
-- semaphore for one that is not.
use mathlib.Core.Path.{subst}
use resmack.Prelude.{
  ℕ, ◌≡◌, ◌≢◌, refl, Bool, true, false, List, Option, none, some, ◌==◌, arith, Bool-cases, inl, inr,
}
use resmack.Prelude.Outcome.{Fault, ok, or_fail, >>=-eq-ok, ok_inj}
use resmack.Lock.{Posix, PosixLaws, Lock, acquire, unlock, named_lock, free_lock, get_value}

pub record NameLaws {K : Type 0} (os : Posix K) : Type 0 where
  pub taken : List ℕ → K → Bool
  pub is_open : ℕ → K → Bool
  pub unlink_frees : (name : List ℕ) (k : K) → taken name (os.sem_unlink name k) ≡ false
  pub unlink_keeps :
      (name : List ℕ) (id : ℕ) (k : K)
      → is_open id k ≡ true
      → is_open id (os.sem_unlink name k) ≡ true
  pub open_excl :
      (name : List ℕ) (v : ℕ) (k : K) → taken name k ≡ true → os.sem_open name v k ≡ none
  pub open_creates :
      (name : List ℕ) (v : ℕ) (k : K)
      → taken name k ≡ false
      → (id : ℕ) × (k' : K) × (os.sem_open name v k ≡ some (id, k'))
  pub open_opens :
      (name : List ℕ) (v : ℕ) (k : K) {id : ℕ} {k' : K}
      → os.sem_open name v k ≡ some (id, k')
      → is_open id k' ≡ true
  pub open_new :
      (name : List ℕ) (v : ℕ) (k : K) (old : ℕ) {id : ℕ} {k' : K}
      → is_open old k ≡ true
      → os.sem_open name v k ≡ some (id, k')
      → id ≢ old
  pub wait_keeps :
      (id old : ℕ) (k : K) {k' : K}
      → is_open old k ≡ true
      → os.sem_wait id k ≡ some k'
      → is_open old k' ≡ true
  pub post_keeps :
      (id old : ℕ) (k : K) → is_open old k ≡ true → is_open old (os.sem_post id k) ≡ true

or_fail-eq-some : {A : Type 0} (o : Option A) (e : Fault) {a : A} → or_fail o e ≡ ok a → o ≡ some a
or_fail-eq-some none e h = cc
or_fail-eq-some (some x) e h = cc

module _ {K : Type 0} (os : Posix K) (names : NameLaws os) where
  free_lock-is_open :
      (l : Lock) (k : K)
      → names.is_open l.sem k ≡ true
      → names.is_open l.sem (free_lock os l k) ≡ true
  unfolding free_lock unlock
  free_lock-is_open l k h = elim (Bool-cases (get_value os l k == 0)) [
    | inl busy ↦ rw busy (names.post_keeps l.sem l.sem k h)
    | inr free ↦ rw free h
  ]

  -- A lock that was made with a name stands for an open semaphore.
  named_lock-is_open :
      (sha1_hex : List ℕ → List ℕ) (name : List ℕ) (k k' : K) (l : Lock)
      → named_lock os sha1_hex name k ≡ ok (l, k')
      → names.is_open l.sem k' ≡ true
  unfolding named_lock
  named_lock-is_open sha1_hex name k k' l h =
      let opening = os.sem_open (sha1_hex name) 1 (os.sem_unlink (sha1_hex name) k) in
      let (q, e, fin) = >>=-eq-ok (or_fail opening Fault.thrown) _ h in
      let open_now : names.is_open q.0 q.1 ≡ true =
        names.open_opens (sha1_hex name) 1 (os.sem_unlink (sha1_hex name) k)
          (or_fail-eq-some opening Fault.thrown e) in
      subst (λ (p : Lock × K). names.is_open p.0.sem p.1 ≡ true) (ok_inj fin)
        (free_lock-is_open
          (record { sem = q.0; anonymous = false; sem_name = sha1_hex name; name = name }) q.1
          open_now)

-- Two locks that are made with one name do not exclude each other: while one process holds the first, the
-- second is made without an exception, is another semaphore, is free, and can be acquired as well.
pub named_locks_overlap :
    {K : Type 0} (os : Posix K)
    → PosixLaws os
    → NameLaws os
    → (sha1_hex : List ℕ → List ℕ) (name : List ℕ) (k k1 k2 : K) (first : Lock)
    → named_lock os sha1_hex name k ≡ ok (first, k1)
    → acquire os first k1 ≡ some k2
    → (second : Lock) × (k3 : K) × (k4 : K) × (named_lock os sha1_hex name k2 ≡ ok (second, k3))
      × (second.sem_name ≡ sha1_hex name)
      × (second.sem ≢ first.sem)
      × (get_value os second k3 ≡ 1)
      × (acquire os second k3 ≡ some k4)
unfolding named_lock free_lock get_value acquire
named_locks_overlap os laws names sha1_hex name k k1 k2 first made held =
    let sem_name = sha1_hex name in
    let gone = os.sem_unlink sem_name k2 in
    let (id, k3, e) = names.open_creates sem_name 1 gone (names.unlink_frees sem_name k2) in
    let one : os.sem_getvalue id k3 ≡ 1 = laws.open_value sem_name 1 gone e in
    let (k4, enters) = laws.wait_free id k3 (rw one (omega arith)) in
    let still_open : names.is_open first.sem gone ≡ true =
      names.unlink_keeps sem_name first.sem k2 (
        names.wait_keeps first.sem first.sem k1
          (named_lock-is_open os names sha1_hex name k k1 first made) held) in
    let second : Lock = record { sem = id; anonymous = false; sem_name = sem_name; name = name } in
    (
      second,
      k3,
      k4,
      rw (e, one) refl,
      refl,
      names.open_new sem_name 1 gone first.sem still_open e,
      one,
      enters,
    )
