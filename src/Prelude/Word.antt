-- ===== src/Prelude/Word.antt =====
-- 64-bit unsigned arithmetic (Go's `uint64`), with its wrap-around.
use Prim.Native.Nat.{ℕ, ◌+◌, ◌-◌, ◌%◌}

abbrev pub u64_mod : ℕ
u64_mod = 18446744073709551616

-- Half of it: an `int` converted from a `uint64` at or above this is negative.
abbrev pub i64_sign : ℕ
i64_sign = 9223372036854775808

abbrev pub add64 : ℕ → ℕ → ℕ
add64 a b = (a + b) % u64_mod

abbrev pub sub64 : ℕ → ℕ → ℕ
sub64 a b = (a + u64_mod - b) % u64_mod
