-- ===== src/Prelude/Integers.antt =====
-- An integer, and the sum of two that wraps at 64 bits as that of two Go ints does.
use Prim.Native.Nat.{ℕ, suc, ◌+◌, ◌-◌, ◌%◌}
use native.Mathlib.Omega.{arith}
use mathlib.Core.Path.{◌≡◌}
use mathlib.Core.Bool.{Bool, true, false}
use acpp.Prelude.Tests.{ltb, if◌then◌else◌}

-- `negsuc n` is -1 - n.
pub data ℤ : Type 0 where
  pos negsuc : ℕ → ℤ

-- m - (1 + n)
sub_suc : ℕ → ℕ → ℤ
sub_suc m n = if ltb n m then pos (m - suc n) else negsuc (n - m)

infixl 65 ◌+ℤ◌
unfoldable pub ◌+ℤ◌ : ℤ → ℤ → ℤ
unfolding sub_suc
pos m +ℤ pos n = pos (m + n)
pos m +ℤ negsuc n = sub_suc m n
negsuc m +ℤ pos n = sub_suc n m
negsuc m +ℤ negsuc n = negsuc (suc (m + n))

-- From 2^63 on, the lower 64 bits of an integer stand for one below 0.
unfoldable pub wrap : ℤ → ℤ
wrap (pos n) =
    let m = n % 18446744073709551616 in
    if ltb m 9223372036854775808 then pos m else negsuc (18446744073709551615 - m)
wrap (negsuc n) =
    let m = n % 18446744073709551616 in
    if ltb m 9223372036854775808 then negsuc m else pos (18446744073709551615 - m)

unfoldable pub int_add : ℤ → ℤ → ℤ
unfolding wrap ◌+ℤ◌
int_add a b = wrap (a +ℤ b)

-- A sum that wraps at each step is the exact sum, wrapped once.
pub wrap_add : (a b : ℤ) → int_add (wrap a) b ≡ wrap (a +ℤ b)
unfolding int_add wrap ◌+ℤ◌ sub_suc
wrap_add (pos m) (pos n) = ground arith
wrap_add (pos m) (negsuc n) = ground arith
wrap_add (negsuc m) (pos n) = ground arith
wrap_add (negsuc m) (negsuc n) = ground arith

-- `<`
unfoldable pub int_lt : ℤ → ℤ → Bool
int_lt (pos m) (pos n) = ltb m n
int_lt (pos m) (negsuc n) = false
int_lt (negsuc m) (pos n) = true
int_lt (negsuc m) (negsuc n) = ltb n m
