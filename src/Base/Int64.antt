-- ===== src/Base/Int64.antt =====
-- Go's int64: an integer, with the arithmetic of the machine. Every result is wrapped into
-- -2^63 .. 2^63 - 1; within that range the operations are those of the integers.
use Prim.Native.Nat.{ℕ, ◌+◌, ◌-◌, ◌%◌, ◌≤◌, ◌<◌}
use mathlib.Core.Path.{◌≡◌}
use native.Mathlib.Omega.{arith}
use hom_swag_reporting.Base.Tests.{ltb, if◌then◌else◌}
use hom_swag_reporting.Base.Int.{
  ℤ, pos, negsuc, pos_part, neg_part, magnitude, ◌+ℤ◌, ◌-ℤ◌, magnitude-add, magnitude-sub,
}

-- 2^63 and 2^64.
abbrev pub int64_limit : ℕ
int64_limit = 9223372036854775808

abbrev pub int64_modulus : ℕ
int64_modulus = 18446744073709551616

unfoldable pub wrap64 : ℤ → ℤ
wrap64 (pos n) =
    let r = n % int64_modulus in if ltb r int64_limit then pos r else negsuc (int64_modulus - r - 1)
wrap64 (negsuc n) =
    let r = n % int64_modulus in if ltb r int64_limit then negsuc r else pos (int64_modulus - r - 1)

unfoldable pub add64 : ℤ → ℤ → ℤ
unfolding wrap64 ◌+ℤ◌
add64 a b = wrap64 (a +ℤ b)

unfoldable pub sub64 : ℤ → ℤ → ℤ
unfolding wrap64 ◌-ℤ◌
sub64 a b = wrap64 (a -ℤ b)

-- The result is in the machine's range, whatever the argument.
pub wrap64_bounds :
    (a : ℤ) → (pos_part (wrap64 a) < int64_limit) × (neg_part (wrap64 a) ≤ int64_limit)
unfolding wrap64
wrap64_bounds a = ground arith

pub wrap64-of_fits : (a : ℤ) → magnitude a < int64_limit → wrap64 a ≡ a
unfolding wrap64
wrap64-of_fits a h = ground arith

pub add64-of_fits : (a b : ℤ) → magnitude a + magnitude b < int64_limit → add64 a b ≡ a +ℤ b
unfolding add64
add64-of_fits a b h = wrap64-of_fits (a +ℤ b) (omega (arith, magnitude-add a b))

pub sub64-of_fits : (a b : ℤ) → magnitude a + magnitude b < int64_limit → sub64 a b ≡ a -ℤ b
unfolding sub64
sub64-of_fits a b h = wrap64-of_fits (a -ℤ b) (omega (arith, magnitude-sub a b))
