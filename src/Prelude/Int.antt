-- ===== src/Prelude/Int.antt =====
-- Signed integers: Go's `int`, which is 64 bits wide on the systems modelled here.
use Prim.Native.Nat.{ℕ, ◌+◌, ◌-◌, ◌*◌, ◌%◌, ◌^◌}
use mathlib.Core.Path.{◌≡◌}
use mathlib.Core.Logic.{◌↔◌}
use mathlib.Core.Bool.{Bool, true, false}
use native.Mathlib.Omega.{arith}
use cyberdaemon.Prelude.Tests.{◌==◌, ltb, if◌then◌else◌}

-- `negsuc n` is -(n + 1).
pub data ℤ : Type 0 where
  pos : ℕ → ℤ
  negsuc : ℕ → ℤ

abbrev pub int_eq : ℤ → ℤ → Bool
int_eq (pos a) (pos b) = a == b
int_eq (negsuc a) (negsuc b) = a == b
int_eq _ _ = false

-- The conversion `int(u)` of a `uint64`: the bit pattern is kept.
unfoldable pub int_of_uint64 : ℕ → ℤ
int_of_uint64 u = if ltb u (2 ^ 63) then pos u else negsuc (2 ^ 64 - 1 - u)

pub int_eq_iff : (a b : ℤ) → (int_eq a b ≡ true) ↔ (a ≡ b)
int_eq_iff (pos a) (pos b) = ground arith
int_eq_iff (pos a) (negsuc b) = ground arith
int_eq_iff (negsuc a) (pos b) = ground arith
int_eq_iff (negsuc a) (negsuc b) = ground arith

-- The bit pattern of an `int64`.
abbrev pub uint64_of_int : ℤ → ℕ
uint64_of_int (pos n) = n % 2 ^ 64
uint64_of_int (negsuc n) = 2 ^ 64 - 1 - n % 2 ^ 64

-- The sum and the product of two `int64`, with their wrap-around.
unfoldable pub int64_add : ℤ → ℤ → ℤ
unfolding int_of_uint64
int64_add a b = int_of_uint64 ((uint64_of_int a + uint64_of_int b) % 2 ^ 64)

unfoldable pub int64_mul : ℤ → ℤ → ℤ
unfolding int_of_uint64
int64_mul a b = int_of_uint64 ((uint64_of_int a * uint64_of_int b) % 2 ^ 64)
