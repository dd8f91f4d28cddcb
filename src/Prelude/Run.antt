-- ===== src/Prelude/Run.antt =====
-- How a call ends: with a value, in undefined behaviour (an access out of bounds), or with the
-- model's fuel used up.

use mathlib.Core.Option.{Option, none, some}

pub data Run {ℓ} (A : Type ℓ) : Type ℓ where
  ok : A → Run A
  fault : Run A
  out_of_fuel : Run A

infixl 5 ◌>>=◌
abbrev pub ◌>>=◌ {ℓ κ} : {A : Type ℓ} {B : Type κ} → Run A → (A → Run B) → Run B
fault >>= next = fault
out_of_fuel >>= next = out_of_fuel
ok a >>= next = next a

-- A read that is undefined behaviour where there is nothing to read.
abbrev pub or_fault {ℓ} : {A : Type ℓ} → Option A → Run A
or_fault none = fault
or_fault (some a) = ok a
