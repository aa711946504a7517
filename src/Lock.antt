-- ===== src/Lock.antt =====
-- The lock that processes share: ws/libresmack_fuzz/src/lock.cpp. The semaphores are the operating
-- system's: `Posix` has its calls on a state `K` of the system, a semaphore being a number, and
-- `PosixLaws` what POSIX says of them. An exception of `unlock`, `try_lock` or `GetValue` is left out.
pub mod Exclusion
pub mod Mutex
pub mod Named
mod Tests
use resmack.Prelude.{
  ℕ, ◌+◌, ◌<◌, ◌≡◌, Bool, true, false, List, [], ◌∷◌, Option, none, some, ◌==◌, if◌then◌else◌,
}
use resmack.Prelude.Outcome.{Outcome, Fault, ok, or_fail, ◌>>=◌}

-- `sem_wait` is none where it blocks or a signal ends it, so that `lock` throws, `sem_trywait` where it
-- fails with EAGAIN, `sem_open`, with O_CREAT | O_EXCL, where it fails. `sem_new` gives memory for a semaphore, with sem_init.
pub record Posix (K : Type 0) : Type 0 where
  pub sem_unlink : List ℕ → K → K
  pub sem_open : List ℕ → ℕ → K → Option (ℕ × K)
  pub sem_close : ℕ → K → K
  pub sem_new : ℕ → K → ℕ × K
  pub sem_destroy : ℕ → K → K
  pub sem_wait : ℕ → K → Option K
  pub sem_trywait : ℕ → K → Option K
  pub sem_post : ℕ → K → K
  pub sem_getvalue : ℕ → K → ℕ

pub record PosixLaws {K : Type 0} (os : Posix K) : Type 0 where
  pub open_value :
      (name : List ℕ) (v : ℕ) (k : K) {id : ℕ} {k' : K}
      → os.sem_open name v k ≡ some (id, k')
      → os.sem_getvalue id k' ≡ v
  pub new_value : (v : ℕ) (k : K) → os.sem_getvalue (os.sem_new v k).0 (os.sem_new v k).1 ≡ v
  pub wait_free :
      (id : ℕ) (k : K) → 0 < os.sem_getvalue id k → (k' : K) × (os.sem_wait id k ≡ some k')
  pub wait_takes :
      (id : ℕ) (k : K) {k' : K}
      → os.sem_wait id k ≡ some k'
      → os.sem_getvalue id k' + 1 ≡ os.sem_getvalue id k
  pub trywait_takes :
      (id : ℕ) (k : K) {k' : K}
      → os.sem_trywait id k ≡ some k'
      → os.sem_getvalue id k' + 1 ≡ os.sem_getvalue id k
  pub post_adds :
      (id : ℕ) (k : K) → os.sem_getvalue id (os.sem_post id k) ≡ os.sem_getvalue id k + 1

pub record Lock : Type 0 where
  pub sem : ℕ
  pub anonymous : Bool
  pub sem_name : List ℕ
  pub name : List ℕ

module _ {K : Type 0} (os : Posix K) where
  -- `lock()` and `unlock()`.
  unfoldable pub acquire : Lock → K → Option K
  acquire l k = os.sem_wait l.sem k

  unfoldable pub unlock : Lock → K → K
  unlock l k = os.sem_post l.sem k

  unfoldable pub try_lock : Lock → K → Bool × K
  try_lock l k = elim (os.sem_trywait l.sem k) [ none ↦ (false, k) | some k' ↦ (true, k') ]

  unfoldable pub get_value : Lock → K → ℕ
  get_value l k = os.sem_getvalue l.sem k

  -- `Init`
  unfoldable pub free_lock : Lock → K → K
  unfolding get_value unlock
  free_lock l k = if get_value l k == 0 then unlock l k else k

  -- `Lock(name)`, where SHA-1 in hexadecimal is a parameter, which overwrites the '/' before it.
  unfoldable pub named_lock : (List ℕ → List ℕ) → List ℕ → K → Outcome (Lock × K)
  unfolding free_lock
  named_lock sha1_hex name k =
      let sem_name = sha1_hex name in
      or_fail (os.sem_open sem_name 1 (os.sem_unlink sem_name k)) Fault.thrown >>= λ q.
      let l : Lock = record { sem = q.0; anonymous = false; sem_name = sem_name; name = name } in
      ok (l, free_lock l q.1)

  -- `Lock(name, shared)`
  unfoldable pub anonymous_lock : List ℕ → K → Lock × K
  unfolding free_lock
  anonymous_lock name k =
      let (id, k1) = os.sem_new 1 k in
      let l : Lock = record { sem = id; anonymous = true; sem_name = []; name = name } in
      (l, free_lock l k1)

  -- `~Lock`, without giving the memory of an anonymous semaphore back.
  unfoldable pub destroy : Lock → K → K
  destroy l k =
      if l.anonymous
      then os.sem_destroy l.sem k
      else os.sem_close l.sem (os.sem_unlink l.sem_name k)
