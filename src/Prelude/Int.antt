-- ===== src/Prelude/Int.antt =====
-- The integers, with Go's conversion to `int64` and the decimal text.
use Prim.Native.Nat.{ℕ, suc, ◌-◌, ◌%◌, ◌^◌}
use mathlib.Core.Bool.{Bool, true, false}
use mathlib.Core.Path.{◌≡◌}
use mathlib.Core.Logic.{◌↔◌}
use native.Mathlib.Omega.{arith}
use mathlib.Core.List.{◌∷◌}
use mocking_box.Prelude.Tests.{ltb, ◌==◌, if◌then◌else◌}
use mocking_box.Prelude.Strings.{GoString, itoa}

-- `negsuc n` is -(n + 1).
pub data ℤ : Type 0 where
  pos : ℕ → ℤ
  negsuc : ℕ → ℤ

-- `int64(x)`: the value modulo 2^64, in two's complement
unfoldable pub wrap_int64 : ℤ → ℤ
wrap_int64 (pos n) = let m = n % 2 ^ 64 in if ltb m (2 ^ 63) then pos m else negsuc (2 ^ 64 - 1 - m)
wrap_int64 (negsuc n) =
    let m = n % 2 ^ 64 in if ltb m (2 ^ 63) then negsuc m else pos (2 ^ 64 - 1 - m)

-- `strconv.FormatInt(x, 10)`
unfoldable pub int_text : ℤ → GoString
unfolding itoa
int_text (pos n) = itoa n
int_text (negsuc n) = b'-' ∷ itoa (suc n)

-- `a == b`
unfoldable pub int_eq : ℤ → ℤ → Bool
int_eq (pos a) (pos b) = a == b
int_eq (negsuc a) (negsuc b) = a == b
int_eq a b = false

pub int_eq_iff : (a b : ℤ) → (int_eq a b ≡ true) ↔ (a ≡ b)
unfolding int_eq
int_eq_iff (pos a) (pos b) = ground arith
int_eq_iff (negsuc a) (negsuc b) = ground arith
int_eq_iff a b = ground arith
