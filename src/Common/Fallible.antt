-- ===== src/Common/Fallible.antt =====
-- What a call can end in besides returning, and the monad of it.
use mathlib.Core.Path.{◌≡◌, refl}
use mathlib.Core.Logic.{◌⊎◌, inl, inr}

-- `out_of_bounds` is an access outside a vector (undefined behaviour), `length_error` the exception
-- of `std::vector::resize`, `dangling` a call through a pointer to no live object (undefined too),
-- `exited` the `exit(-1)` of LOG_FATAL, `overflow` one of an `int` (undefined).
pub data Fault : Type 0 where
  out_of_bounds length_error dangling exited overflow : Fault

pub data Outcome {ℓ} (A : Type ℓ) : Type ℓ where
  ok : A → Outcome A
  err : Fault → Outcome A

infixl 5 ◌>>=◌
abbrev pub ◌>>=◌ {ℓ κ} : {A : Type ℓ} {B : Type κ} → Outcome A → (A → Outcome B) → Outcome B
err fault >>= next = err fault
ok value >>= next = next value

pub Outcome-cases {ℓ} :
    {A : Type ℓ} (m : Outcome A) → ((a : A) × (m ≡ ok a)) ⊎ ((e : Fault) × (m ≡ err e))
Outcome-cases (ok a) = inl (a, refl)
Outcome-cases (err e) = inr (e, refl)

-- Inversion of a successful bind.
pub >>=-eq-ok {ℓ κ} :
    {X : Type ℓ} {Y : Type κ} {y : Y} (next : X → Outcome Y) (call : Outcome X)
    → (call >>= next) ≡ ok y
    → (x : X) × (call ≡ ok x) × (next x ≡ ok y)
>>=-eq-ok next (err fault) h = cc
>>=-eq-ok next (ok x) h = (x, refl, h)
