-- ===== src/Lock/Tests.antt =====
-- A system with one semaphore, and runs of ws/libresmack_fuzz/src/lock.cpp on it.
use resmack.Prelude.{
  ◌≢◌, ap, subst, Bool, ltb, ltb→lt, lt→ltb, ◌==◌, ==_refl, if◌then◌else◌, ℕ, ◌⊎◌, zero, suc, ◌+◌,
  ◌<◌, ◌≡◌, refl, true, false, [], ◌∷◌, Option, none, some, arith,
}
use resmack.Prelude.Outcome.{ok}
use resmack.Lock.{
  Posix, PosixLaws, Lock, anonymous_lock, named_lock, free_lock, acquire, try_lock, unlock,
  get_value,
}
use resmack.Lock.Exclusion.{
  System, Reach, start, later, enter, leave, try_enter, try_busy, mutual_exclusion,
}
use resmack.Lock.Mutex.{MutexStep, holder, up, lock_refines_mutex}
use resmack.Lock.Named.{NameLaws, named_locks_overlap}

abbrev take_one : ℕ → Option ℕ
take_one zero = none
take_one (suc k) = some k

-- The state of the system is the value of its semaphore.
abbrev one_semaphore : Posix ℕ
one_semaphore = record {
  sem_unlink = λ name k. k;
  sem_open = λ name v k. some (0, v);
  sem_close = λ id k. k;
  sem_new = λ v k. (0, v);
  sem_destroy = λ id k. k;
  sem_wait = λ id k. take_one k;
  sem_trywait = λ id k. take_one k;
  sem_post = λ id k. k + 1;
  sem_getvalue = λ id k. k;
}

opened_value : {v id k' : ℕ} → ◌≡◌ {A = Option (ℕ × ℕ)} (some (0, v)) (some (id, k')) → k' ≡ v
opened_value h = cc

some_inj : {a b : ℕ} → some a ≡ some b → a ≡ b
some_inj h = cc

takes : (k : ℕ) {k' : ℕ} → take_one k ≡ some k' → k' + 1 ≡ k
takes zero h = cc
takes (suc k) h = omega (arith, some_inj h)

waits : (k : ℕ) → 0 < k → (k' : ℕ) × (take_one k ≡ some k')
waits zero h = absurd (omega (arith, h))
waits (suc k) h = (k, refl)

one_semaphore_laws : PosixLaws one_semaphore
one_semaphore_laws = record {
  open_value = λ name v k h. opened_value h;
  new_value = λ v k. refl;
  wait_free = λ id k h. waits k h;
  wait_takes = λ id k h. takes k h;
  trywait_takes = λ id k h. takes k h;
  post_adds = λ id k. refl;
}

abbrev shared_lock : Lock
shared_lock = record { sem = 0; anonymous = true; sem_name = []; name = 76 ∷ [] }

abbrev second_inside : System ℕ
second_inside = record { kernel = 0; inside = false ∷ true ∷ [] }

-- The first process enters and leaves, the second enters, and the first is turned away.
second_enters : Reach one_semaphore shared_lock 1 2 second_inside
unfolding acquire try_lock unlock
second_enters =
    later (later (later (later start (enter 0 refl refl)) (leave 0 refl)) (try_enter 1 refl refl))
      (try_busy 0 refl refl)

mutual_exclusion_example : ◌≡◌ {A = ℕ} 1 1
unfolding anonymous_lock free_lock get_value unlock
mutual_exclusion_example =
    mutual_exclusion one_semaphore one_semaphore_laws (76 ∷ []) 5 2 second_enters 1 1 refl refl

lock_refines_mutex_example :
    MutexStep (some 1) none
    × (((i : ℕ) × (none ≡ some i)) ⊎ ((k : ℕ) × (acquire one_semaphore shared_lock 1 ≡ some k)))
unfolding anonymous_lock free_lock get_value unlock holder up
lock_refines_mutex_example =
    lock_refines_mutex one_semaphore one_semaphore_laws (76 ∷ []) 5 2 second_enters (leave 1 refl)

-- A system with one name and any number of semaphores.
record Kernel : Type 0 where
  taken : Bool
  next_id : ℕ
  value : ℕ → ℕ

abbrev put : (ℕ → ℕ) → ℕ → ℕ → ℕ → ℕ
put value id v other = if other == id then v else value other

abbrev take_from : ℕ → Kernel → ℕ → Option Kernel
take_from id k zero = none
take_from id k (suc v) = some (record k { value = put k.value id v })

abbrev made : ℕ → Kernel → ℕ × Kernel
made v k =
    (k.next_id, record { taken = true; next_id = k.next_id + 1; value = put k.value k.next_id v })

abbrev make : ℕ → Kernel → Bool → Option (ℕ × Kernel)
make v k true = none
make v k false = some (made v k)

abbrev kernel : Posix Kernel
kernel = record {
  sem_unlink = λ name k. record k { taken = false };
  sem_open = λ name v k. make v k k.taken;
  sem_close = λ id k. k;
  sem_new =
      λ v k. (k.next_id, record k { next_id = k.next_id + 1; value = put k.value k.next_id v });
  sem_destroy = λ id k. k;
  sem_wait = λ id k. take_from id k (k.value id);
  sem_trywait = λ id k. take_from id k (k.value id);
  sem_post = λ id k. record k { value = put k.value id (k.value id + 1) };
  sem_getvalue = λ id k. k.value id;
}

put_here : (value : ℕ → ℕ) (id v : ℕ) → put value id v id ≡ v
put_here value id v = rw (==_refl id) refl

pair_inj : {a b : ℕ × Kernel} → some a ≡ some b → a ≡ b
pair_inj h = cc

kernel_inj : {a b : Kernel} → some a ≡ some b → a ≡ b
kernel_inj h = cc

made_one :
    (v : ℕ) (k : Kernel) (b : Bool) {id : ℕ} {k' : Kernel}
    → make v k b ≡ some (id, k')
    → made v k ≡ (id, k')
made_one v k true h = cc
made_one v k false h = pair_inj h

takes_one :
    (id : ℕ) (k : Kernel) (n : ℕ) {k' : Kernel}
    → take_from id k n ≡ some k'
    → (k'.value id + 1 ≡ n) × (k'.next_id ≡ k.next_id)
takes_one id k zero h = cc
takes_one id k (suc n) {k'} h =
    let e = kernel_inj h in
    subst (λ (q : Kernel). (q.value id + 1 ≡ suc n) × (q.next_id ≡ k.next_id)) e
      (rw (put_here k.value id n) (omega arith), refl)

takes_some : (id : ℕ) (k : Kernel) (n : ℕ) → 0 < n → (k' : Kernel) × (take_from id k n ≡ some k')
takes_some id k zero h = absurd (omega (arith, h))
takes_some id k (suc n) h = (_, refl)

kernel_laws : PosixLaws kernel
kernel_laws = record {
  open_value = λ name v k h.
      subst (λ (p : ℕ × Kernel). p.1.value p.0 ≡ v) (made_one v k k.taken h)
        (put_here k.value k.next_id v);
  new_value = λ v k. put_here k.value k.next_id v;
  wait_free = λ id k h. takes_some id k (k.value id) h;
  wait_takes = λ id k h. (takes_one id k (k.value id) h).0;
  trywait_takes = λ id k h. (takes_one id k (k.value id) h).0;
  post_adds = λ id k. put_here k.value id (k.value id + 1);
}

below : ℕ → Kernel → Bool
below id k = ltb id k.next_id

not_next :
    (v : ℕ) (k : Kernel) (old : ℕ) {id : ℕ} {k' : Kernel}
    → ltb old k.next_id ≡ true
    → make v k k.taken ≡ some (id, k')
    → id ≢ old
not_next v k old {id} {k'} h e =
    let same : k.next_id ≡ id = ap (λ (p : ℕ × Kernel). p.0) (made_one v k k.taken e) in
    λ equal. omega (arith, ltb→lt old k.next_id h, same, equal)

kernel_names : NameLaws kernel
unfolding below
kernel_names = record {
  taken = λ name k. k.taken;
  is_open = below;
  unlink_frees = λ name k. refl;
  unlink_keeps = λ name id k h. h;
  open_excl = λ name v k h. rw h refl;
  open_creates = λ name v k h. ((made v k).0, (made v k).1, rw h refl);
  open_opens = λ name v k h.
      subst (λ (p : ℕ × Kernel). ltb p.0 p.1.next_id ≡ true) (made_one v k k.taken h)
        (lt→ltb k.next_id (k.next_id + 1) (omega arith));
  open_new = λ name v k old h e. not_next v k old h e;
  wait_keeps = λ id old k h e. rw (takes_one id k (k.value id) e).1 h;
  post_keeps = λ id old k h. h;
}

abbrev first : Lock
first = record { sem = 0; anonymous = false; sem_name = 99 ∷ []; name = 76 ∷ [] }

abbrev empty : Kernel
empty = record { taken = false; next_id = 0; value = λ id. 0 }

abbrev with_one : Kernel
with_one = record { taken = true; next_id = 1; value = put (λ id. 0) 0 1 }

abbrev held : Kernel
held = record with_one { value = put with_one.value 0 0 }

named_locks_overlap_example :
    (second : Lock) × (k3 : Kernel) × (k4 : Kernel) × (named_lock kernel
        (λ name. 99 ∷ [])
        (76 ∷ [])
        held
      ≡ ok (second, k3))
    × (second.sem_name ≡ 99 ∷ [])
    × (second.sem ≢ 0)
    × (get_value kernel second k3 ≡ 1)
    × (acquire kernel second k3 ≡ some k4)
unfolding named_lock free_lock get_value acquire
named_locks_overlap_example =
    named_locks_overlap kernel kernel_laws kernel_names (λ name. 99 ∷ []) (76 ∷ []) empty with_one
      held first refl refl
