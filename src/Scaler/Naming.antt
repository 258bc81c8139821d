-- ===== src/Scaler/Naming.antt =====
-- scaler/naming.go, for ASCII names. `%04X` of a one-byte text is its two hexadecimal digits behind
-- two zeros.

pub mod Injective
use http_add_on.Prelude.{
  ℕ, ◌+◌, ◌-◌, ◌/◌, ◌%◌, Bool, not, ◌&&◌, ◌||◌, Option, none, some, List, [], ◌∷◌, ◌++◌, ltb, leb,
  ◌==◌, if◌then◌else◌,
}
use http_add_on.Prelude.Text.{Text, codes}
use http_add_on.Api.{NamespacedName, to_string}

abbrev pub between : ℕ → ℕ → ℕ → Bool
between lo hi c = leb lo c && leb c hi

-- `[-.0-9A-Za-z]`
unfoldable pub is_safe : ℕ → Bool
is_safe c =
    c == b'-'
    || (c == b'.' || (between b'0' b'9' c || (between b'A' b'Z' c || between b'a' b'z' c)))

abbrev pub hex_digit : ℕ → ℕ
hex_digit d = if ltb d 10 then b'0' + d else b'A' + (d - 10)

unfoldable pub escape_rune : ℕ → Text
escape_rune c = b'_' ∷ b'0' ∷ b'0' ∷ hex_digit (c / 16) ∷ hex_digit (c % 16) ∷ []

unfoldable pub escape_string : Text → Text
unfolding is_safe escape_rune
escape_string [] = []
escape_string (c ∷ s) = (if is_safe c then c ∷ [] else escape_rune c) ++ escape_string s

-- `%v` of a pointer with a `String` method; a nil one is printed as `<nil>`.
abbrev pub print_name : Option NamespacedName → Text
print_name none = codes "<nil>"
print_name (some n) = to_string n

unfoldable pub metric_name : Option NamespacedName → Text
metric_name n = escape_string (codes "http-" ++ print_name n)
