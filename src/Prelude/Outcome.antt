-- ===== src/Prelude/Outcome.antt =====
-- The outcome of C++ code that may throw or whose behaviour may be undefined.
use mathlib.Core.Option.{Option, none, some}

-- `undefined` stands for behaviour that C++ leaves undefined: a read of a value never written, an
-- index out of range, a null pointer followed. `diverges` is a loop not left within the rounds that it
-- is given. The others are exceptions.
pub data Error : Type 0 where
  undefined runtime_error out_of_memory length_error out_of_range diverges : Error

pub data Result {ℓ} (A : Type ℓ) : Type ℓ where
  ok : A → Result A
  err : Error → Result A

module _ {ℓ κ} {A : Type ℓ} {B : Type κ} where
  infixl 5 ◌>>=◌
  abbrev pub ◌>>=◌ : Result A → (A → Result B) → Result B
  err failure >>= next = err failure
  ok value >>= next = next value

abbrev pub or_fail {ℓ} : {A : Type ℓ} → Option A → Error → Result A
or_fail none e = err e
or_fail (some a) e = ok a
