-- ===== src/Scaler/ParseInt.antt =====
-- `strconv.ParseInt(s, 10, 64)` of Go's standard library: the 64-bit pattern, or `none` for an error.
use http_add_on.Prelude.{
  ℕ, ◌+◌, ◌-◌, ◌*◌, Bool, ◌&&◌, Option, none, some, [], ◌∷◌, ltb, leb, ◌==◌, if◌then◌else◌, ◌>>=◌,
}
use http_add_on.Prelude.Text.{Text}
use http_add_on.Prelude.Word.{word_mod, int_min}

abbrev pub is_digit : ℕ → Bool
is_digit c = leb b'0' c && leb c b'9'

unfoldable pub parse_digits : ℕ → Text → Option ℕ
parse_digits n [] = some n
parse_digits n (c ∷ s) =
    let rest = parse_digits (n * 10 + (c - b'0')) s in if is_digit c then rest else none

-- At least one digit.
abbrev pub parse_uint : Text → Option ℕ
parse_uint [] = none
parse_uint (c ∷ s) = parse_digits 0 (c ∷ s)

abbrev pub positive : ℕ → Option ℕ
positive n = if ltb n int_min then some n else none

-- The pattern of -n.
abbrev pub negative : ℕ → Option ℕ
negative n = if n == 0 then some 0 else if leb n int_min then some (word_mod - n) else none

unfoldable pub parse_int : Text → Option ℕ
unfolding parse_digits
parse_int [] = none
parse_int (c ∷ s) =
    if c == b'-'
    then parse_uint s >>= negative
    else if c == b'+'
    then parse_uint s >>= positive
    else parse_uint (c ∷ s) >>= positive
