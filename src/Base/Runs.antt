-- ===== src/Base/Runs.antt =====
-- What a run of C code comes to, and the status codes that the functions return.
use mathlib.Core.Path.{◌≡◌, refl}
use mathlib.Core.Bool.{Bool, true, false}

-- `fault` is undefined behaviour (an access outside an object, an `int` shift out of range),
-- `abort` a failed `assert`, and `hang` a wait for a byte or an event that never comes.
pub data Outcome {ℓ} (A : Type ℓ) : Type ℓ where
  done : A → Outcome A
  fault abort hang : Outcome A

infixl 5 ◌>>=◌ ◌>>◌
abbrev pub ◌>>=◌ {ℓ κ} : {A : Type ℓ} {B : Type κ} → Outcome A → (A → Outcome B) → Outcome B
done a >>= f = f a
fault >>= f = fault
abort >>= f = abort
hang >>= f = hang

abbrev pub ◌>>◌ {ℓ} : {B : Type ℓ} → Outcome (Unit {0}) → Outcome B → Outcome B
m >> k = m >>= λ _. k

-- `assert(b)`
abbrev pub assert_that : Bool → Outcome (Unit {0})
assert_that true = done tt
assert_that false = abort

-- 0, the negated error codes of errno.h and libglip.h, and the plain -1.
pub data Status : Type 0 where
  ok einval enomem etimedout failed : Status
  eunknown_backend efeature enoinit : Status

abbrev pub is_ok : Status → Bool
is_ok ok = true
is_ok _ = false

pub >>=-eq-done {ℓ κ} :
    {A : Type ℓ} {B : Type κ} (m : Outcome A) (f : A → Outcome B) {b : B}
    → (m >>= f) ≡ done b
    → (a : A) × (m ≡ done a) × (f a ≡ done b)
>>=-eq-done (done a) f h = (a, refl, h)
>>=-eq-done fault f h = cc
>>=-eq-done abort f h = cc
>>=-eq-done hang f h = cc

-- The run leaves no object, and if it returns, what it returns is as `P` says.
abbrev pub Safely {ℓ} : {A : Type ℓ} → Outcome A → (A → Type 0) → Type 0
Safely (done a) P = P a
Safely fault P = ⊥
Safely abort P = Unit
Safely hang P = Unit

pub Safely-bind {ℓ κ} :
    {A : Type ℓ} {B : Type κ} (m : Outcome A) (f : A → Outcome B) (P : A → Type 0) (Q : B → Type 0)
    → Safely m P
    → ((a : A) → P a → Safely (f a) Q)
    → Safely (m >>= f) Q
Safely-bind (done a) f P Q h k = k a h
Safely-bind fault f P Q h k = h
Safely-bind abort f P Q h k = tt
Safely-bind hang f P Q h k = tt

pub Safely-le {ℓ} :
    {A : Type ℓ} (m : Outcome A) (P Q : A → Type 0)
    → ((a : A) → P a → Q a)
    → Safely m P
    → Safely m Q
Safely-le (done a) P Q k h = k a h
Safely-le fault P Q k h = h
Safely-le abort P Q k h = tt
Safely-le hang P Q k h = tt
