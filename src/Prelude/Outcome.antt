-- ===== src/Prelude/Outcome.antt =====
-- What a call of the program can come to: a value, or one of the ways in which C++ code leaves its
-- defined behaviour or throws.
use mathlib.Core.Path.{◌≡◌, refl}
use mathlib.Core.Bool.{Bool, true, false}
use mathlib.Core.Option.{Option, none, some}
use resmack.Prelude.Tests.{if◌then◌else◌}

-- `thrown` is an exception of the code's own; `no_fuel` is a model's bound on loops or call depth,
-- which no run of the program has. The rest are undefined behaviour.
pub data Fault : Type 0 where
  null_deref dangling div_by_zero out_of_range invalid_iterator thrown no_fuel : Fault

pub data Outcome {ℓ} (A : Type ℓ) : Type ℓ where
  ok : A → Outcome A
  fail : Fault → Outcome A

infixl 5 ◌>>=◌ ◌>>◌
abbrev pub ◌>>=◌ {ℓ κ} : {A : Type ℓ} {B : Type κ} → Outcome A → (A → Outcome B) → Outcome B
ok value >>= k = k value
fail fault >>= k = fail fault

-- A read that the code does not check.
abbrev pub or_fail {ℓ} : {A : Type ℓ} → Option A → Fault → Outcome A
or_fail none e = fail e
or_fail (some a) e = ok a

abbrev pub ◌>>◌ {ℓ} : {B : Type ℓ} → Outcome (Unit {0}) → Outcome B → Outcome B
first >> rest = first >>= λ _. rest

abbrev pub guard : Bool → Fault → Outcome (Unit {0})
guard true fault = ok tt
guard false fault = fail fault

pub >>=-eq-ok {ℓ κ} :
    {A : Type ℓ} {B : Type κ} (m : Outcome A) (k : A → Outcome B) {b : B}
    → (m >>= k) ≡ ok b
    → (a : A) × (m ≡ ok a) × (k a ≡ ok b)
>>=-eq-ok (ok value) k h = (value, refl, h)
>>=-eq-ok (fail fault) k h = cc

pub ok_inj {ℓ} : {A : Type ℓ} {a b : A} → ok a ≡ ok b → a ≡ b
ok_inj e = cc

pub bind_cong {ℓ κ} :
    {A : Type ℓ} {B : Type κ} (m : Outcome A) (k k' : A → Outcome B)
    → ((a : A) → k a ≡ k' a)
    → (m >>= k) ≡ (m >>= k')
bind_cong (ok value) k k' h = h value
bind_cong (fail fault) k k' h = refl

-- What holds of the value, if the code returns one.
abbrev pub Holds {ℓ} : {A : Type ℓ} → (A → Type 0) → Outcome A → Type 0
Holds P (ok a) = P a
Holds P (fail e) = Unit

pub Holds-bind {ℓ κ} :
    {A : Type ℓ} {B : Type κ} (P : A → Type 0) (Q : B → Type 0) (m : Outcome A) (f : A → Outcome B)
    → Holds P m
    → ((a : A) → P a → Holds Q (f a))
    → Holds Q (m >>= f)
Holds-bind P Q (ok a) f h k = k a h
Holds-bind P Q (fail e) f h k = tt

pub Holds-after {ℓ κ} :
    {A : Type ℓ} {B : Type κ} (Q : B → Type 0) (m : Outcome A) (f : A → Outcome B)
    → ((a : A) → Holds Q (f a))
    → Holds Q (m >>= f)
Holds-after Q (ok a) f k = k a
Holds-after Q (fail e) f k = tt

pub Holds-if {ℓ} :
    {A : Type ℓ} (P : A → Type 0) (b : Bool) (x y : Outcome A)
    → Holds P x
    → Holds P y
    → Holds P (if b then x else y)
Holds-if P true x y h k = h
Holds-if P false x y h k = k

pub Holds-map {ℓ} :
    {A : Type ℓ} (P Q : A → Type 0) (m : Outcome A) → Holds P m → ((a : A) → P a → Q a) → Holds Q m
Holds-map P Q (ok a) h k = k a h
Holds-map P Q (fail e) h k = tt

pub Holds-else {ℓ} :
    {A : Type ℓ} (P : A → Type 0) (b : Bool) (x y : Outcome A)
    → b ≡ false
    → Holds P y
    → Holds P (if b then x else y)
Holds-else P true x y e h = cc
Holds-else P false x y e h = h
