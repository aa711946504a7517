-- ===== src/Build/Safe.antt =====
-- What holds of an outcome that is not that of running out of fuel, for the steps of a build
-- (ws/libresmack/src/).
use resmack.Prelude.{
  ℕ, zero, suc, ◌%◌, ◌≡◌, ◌≢◌, refl, Bool, true, false, List, Option, none, some, ◌==◌,
  if◌then◌else◌, length, get_elem?,
}
use resmack.Prelude.Outcome.{
  Outcome, Fault, ok, fail, or_fail, guard, ◌>>=◌, null_deref, dangling, div_by_zero, out_of_range,
  invalid_iterator, thrown, no_fuel,
}
use resmack.Rand.{Rand, next, rand_bytes}
use resmack.Build.Items.{rem}

abbrev pub NotFuel : Fault → Type 0
NotFuel null_deref = Unit
NotFuel dangling = Unit
NotFuel div_by_zero = Unit
NotFuel out_of_range = Unit
NotFuel invalid_iterator = Unit
NotFuel thrown = Unit
NotFuel no_fuel = ⊥

-- The value is as P says, or the code has thrown or left its defined behaviour.
abbrev pub Safe {ℓ} : {A : Type ℓ} → (A → Type 0) → Outcome A → Type 0
Safe P (ok a) = P a
Safe P (fail e) = NotFuel e

abbrev pub Any {ℓ} : {A : Type ℓ} → A → Type 0
Any a = Unit

pub Safe-bind {ℓ κ} :
    {A : Type ℓ} {B : Type κ} (P : A → Type 0) (Q : B → Type 0) (m : Outcome A) (f : A → Outcome B)
    → Safe P m
    → ((a : A) → P a → Safe Q (f a))
    → Safe Q (m >>= f)
Safe-bind P Q (ok a) f h k = k a h
Safe-bind P Q (fail e) f h k = h

pub Safe-if {ℓ} :
    {A : Type ℓ} (P : A → Type 0) (b : Bool) (x y : Outcome A)
    → Safe P x
    → Safe P y
    → Safe P (if b then x else y)
Safe-if P true x y h k = h
Safe-if P false x y h k = k

pub Safe-or_fail :
    {A : Type 0} (o : Option A) (e : Fault) → NotFuel e → Safe (λ a. o ≡ some a) (or_fail o e)
Safe-or_fail none e h = h
Safe-or_fail (some a) e h = refl

pub Safe-guard : (b : Bool) (e : Fault) → NotFuel e → Safe Any (guard b e)
Safe-guard true e h = tt
Safe-guard false e h = h

pub Safe-ne {ℓ} : {A : Type ℓ} (P : A → Type 0) (m : Outcome A) → Safe P m → m ≢ fail Fault.no_fuel
Safe-ne P (ok a) h e = cc
Safe-ne P (fail null_deref) h e = cc
Safe-ne P (fail dangling) h e = cc
Safe-ne P (fail div_by_zero) h e = cc
Safe-ne P (fail out_of_range) h e = cc
Safe-ne P (fail invalid_iterator) h e = cc
Safe-ne P (fail thrown) h e = cc
Safe-ne P (fail no_fuel) h e = h

pub rem-Safe : (x n : ℕ) → Safe Any (rem x n)
rem-Safe x n = Safe-if Any (n == 0) (fail div_by_zero) (ok (x % n)) tt tt

pub rand_bytes-Safe : (r : Rand) (charset : List ℕ) (n : ℕ) → Safe Any (rand_bytes r charset n)
unfolding rand_bytes
rand_bytes-Safe r charset zero = tt
rand_bytes-Safe r charset (suc n) =
    Safe-bind Any Any (guard (if length charset == 0 then false else true) div_by_zero) _
      (Safe-guard (if length charset == 0 then false else true) div_by_zero tt)
      (λ u. λ h.
        Safe-bind _ Any (or_fail (get_elem? charset ((next r).0 % length charset)) out_of_range) _
          (Safe-or_fail (get_elem? charset ((next r).0 % length charset)) out_of_range tt)
          (λ c e.
            Safe-bind Any Any (rand_bytes (next r).1 charset n) _
              (rand_bytes-Safe (next r).1 charset n) (λ p k. tt)))

-- A read that may be refused.
pub or_fail-Safe {ℓ} : {A : Type ℓ} (o : Option A) (e : Fault) → NotFuel e → Safe Any (or_fail o e)
or_fail-Safe none e h = h
or_fail-Safe (some a) e h = tt
