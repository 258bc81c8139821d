-- ===== src/Prelude/Decimal.antt =====
-- `%d` of an integer, given as its 64-bit pattern, and `strings.ToLower` of an ASCII text.
use Prim.Native.Nat.{ℕ, zero, suc, ◌+◌, ◌-◌, ◌/◌, ◌%◌}
use mathlib.Core.Bool.{◌&&◌}
use mathlib.Core.List.{[], ◌∷◌, map}
use http_add_on.Prelude.Tests.{ltb, leb, if◌then◌else◌}
use http_add_on.Prelude.Text.{Text}
use http_add_on.Prelude.Word.{word_mod, is_neg}

-- The decimal digits of `n` before `rest`; a number below 2 ^ 64 has at most 20.
unfoldable pub digits : ℕ → ℕ → Text → Text
digits zero n rest = rest
digits (suc fuel) n rest =
    if ltb n 10 then (b'0' + n) ∷ rest else digits fuel (n / 10) ((b'0' + n % 10) ∷ rest)

abbrev pub print_int : ℕ → Text
print_int n = if is_neg n then b'-' ∷ digits 20 (word_mod - n) [] else digits 20 n []

abbrev pub lower : ℕ → ℕ
lower c = if leb b'A' c && leb c b'Z' then c + 32 else c

abbrev pub to_lower : Text → Text
to_lower s = map lower s
