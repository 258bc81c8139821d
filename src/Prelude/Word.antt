-- ===== src/Prelude/Word.antt =====
-- Go's `int` and `int64`: 64-bit two's complement, as the bit pattern below 2 ^ 64.
use Prim.Native.Nat.{ℕ, ◌+◌, ◌-◌, ◌%◌, ◌<◌}
use mathlib.Core.Path.{◌≡◌}
use mathlib.Core.Bool.{Bool}
use native.Mathlib.Omega.{arith}
use http_add_on.Prelude.Tests.{ltb, leb}

-- 2 ^ 64 and 2 ^ 63.
abbrev pub word_mod : ℕ
word_mod = 18446744073709551616

abbrev pub int_min : ℕ
int_min = 9223372036854775808

abbrev pub add64 : ℕ → ℕ → ℕ
add64 a b = (a + b) % word_mod

abbrev pub sub64 : ℕ → ℕ → ℕ
sub64 a b = (a + (word_mod - b % word_mod)) % word_mod

-- The sign bit.
abbrev pub is_neg : ℕ → Bool
is_neg a = leb int_min a

-- The order of the integers that the patterns stand for.
abbrev pub lt64 : ℕ → ℕ → Bool
lt64 a b = ltb ((a + int_min) % word_mod) ((b + int_min) % word_mod)

pub add64_comm : (a b : ℕ) → add64 a b ≡ add64 b a
add64_comm a b = omega arith

pub add64_assoc : (a b c : ℕ) → add64 (add64 a b) c ≡ add64 a (add64 b c)
add64_assoc a b c = omega arith

pub sub64-add64 : (a b : ℕ) → a < word_mod → b < word_mod → sub64 (add64 a b) b ≡ a
sub64-add64 a b ha hb = omega arith
