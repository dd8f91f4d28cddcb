-- ===== src/Prelude/Words.antt =====
-- C integers: `int` is a ℤ, `unsigned int` a number below 2^32, `size_t` a number below 2^64.
-- `float` has no model of its own: its values and the two operations that the code uses are an
-- interface.
use Prim.Native.Nat.{ℕ, zero, suc, ◌+◌, ◌-◌, ◌%◌, ◌^◌, ◌<◌}
use mathlib.Core.Path.{◌≡◌}
use native.Mathlib.Omega.{arith}
use alto.Prelude.Tests.{ltb, if◌then◌else◌}
use mathlib.Core.Bool.{Bool}
use alto.Prelude.Int.{ℤ, pos, negsuc, ◌-ℤ◌}
use alto.Prelude.Run.{Run, ok, fault}

-- (unsigned int)z
abbrev pub to_u32 : ℤ → ℕ
to_u32 (pos n) = n % 2 ^ 32
to_u32 (negsuc n) = 2 ^ 32 - 1 - n % 2 ^ 32

-- (int)n
abbrev pub to_i32 : ℕ → ℤ
to_i32 n = if ltb n (2 ^ 31) then pos n else negsuc (2 ^ 32 - 1 - n)

-- Is the number an `int`?
abbrev pub is_i32 : ℤ → Bool
is_i32 (pos n) = ltb n (2 ^ 31)
is_i32 (negsuc n) = ltb n (2 ^ 31)

-- The result of an operation on `int`s, whose overflow is undefined behaviour.
unfoldable pub as_i32 : ℤ → Run ℤ
as_i32 z = if is_i32 z then ok z else fault

pub as_i32-pos : (n : ℕ) → n < 2 ^ 31 → as_i32 (pos n) ≡ ok (pos n)
unfolding as_i32
as_i32-pos n h = ground arith

-- A difference of two `int`s that are not negative does not overflow.
pub as_i32-sub : (n k : ℕ) → n < 2 ^ 31 → k < 2 ^ 31 → as_i32 (pos n -ℤ pos k) ≡ ok (pos n -ℤ pos k)
unfolding as_i32 ◌-ℤ◌
as_i32-sub n k h l = ground arith

-- `n += z` on an `unsigned int`
unfoldable pub add_u32 : ℕ → ℤ → ℕ
add_u32 n z = (n + to_u32 z) % 2 ^ 32

-- `n - 1` on a `size_t`
unfoldable pub size_pred : ℕ → ℕ
size_pred zero = 2 ^ 64 - 1
size_pred (suc n) = n

-- An `int` that is not negative survives the store in an `unsigned int` and the way back.
pub to_i32-to_u32 : (n : ℕ) → n < 2 ^ 31 → to_i32 (to_u32 (pos n)) ≡ pos n
to_i32-to_u32 n h = ground arith

-- As long as no wrap happens, adding a count is addition.
pub add_u32-pos : (n k : ℕ) → n + k < 2 ^ 32 → add_u32 n (pos k) ≡ n + k
unfolding add_u32
add_u32-pos n k h = omega arith

-- Taking away no more than there is is subtraction.
pub add_u32-negsuc : (n k : ℕ) → n < 2 ^ 32 → k < n → add_u32 n (negsuc k) ≡ n - suc k
unfolding add_u32
add_u32-negsuc n k h l = omega arith

pub record Floats {ℓ} : Type (ℓ + 1) where
  pub F : Type ℓ
  pub zero_f : F
  pub add_f : F → F → F
  pub of_int : ℤ → F
