-- ===== src/Config/Env/Numbers.antt =====
-- Numbers that are printed and read back.
use native.Mathlib.Nat.{pow-suc}
use http_add_on.Prelude.{
  ℕ, zero, suc, ◌+◌, ◌-◌, ◌*◌, ◌/◌, ◌%◌, ◌^◌, ◌<◌, ◌≡◌, refl, ◌∙◌, Bool, true, false, Option, none,
  some, [], ◌∷◌, ltb, leb, ◌==◌, if◌then◌else◌, ◌>>=◌, arith, Bool-cases, Option-cases, inl, inr,
}
use http_add_on.Prelude.Text.{Text, text_eq}
use http_add_on.Prelude.Word.{word_mod, int_min, is_neg}
use http_add_on.Prelude.Decimal.{digits, print_int}
use http_add_on.Scaler.ParseInt.{is_digit, parse_digits, parse_uint, positive, parse_int}
use http_add_on.Config.Env.{Env, get, or_else, is_int32, parse_int32, get_int32_or}

digit-is_digit : (d : ℕ) → d < 10 → is_digit (b'0' + d) ≡ true
digit-is_digit d h = ground arith

-- One more digit.
parse_digits-cons :
    (m d n : ℕ) (rest : Text)
    → d < 10
    → m * 10 + d ≡ n
    → parse_digits m ((b'0' + d) ∷ rest) ≡ parse_digits n rest
unfolding parse_digits
parse_digits-cons m d n rest h e =
    let value : m * 10 + (b'0' + d - b'0') ≡ n = omega arith in rw (digit-is_digit d h, value) refl

parse_digits-digits :
    (fuel n : ℕ) (rest : Text)
    → n < 10 ^ fuel
    → parse_digits 0 (digits fuel n rest) ≡ parse_digits n rest
unfolding digits
parse_digits-digits zero n rest h = let e : n ≡ 0 = omega arith in rw e refl
parse_digits-digits (suc fuel) n rest h = elim (Bool-cases (ltb n 10)) [
  | inl small ↦ rw small (parse_digits-cons 0 n n rest (ground arith) (omega arith))
  | inr large ↦ rw large (
      parse_digits-digits fuel (n / 10) ((b'0' + n % 10) ∷ rest)
        (let p = pow-suc 10 fuel in omega arith)
      ∙ parse_digits-cons (n / 10) (n % 10) n rest (omega arith) (omega arith))
]

abbrev StartsDigit : Text → Type 0
StartsDigit s = (c : ℕ) × (rest : Text) × (s ≡ c ∷ rest) × (is_digit c ≡ true)

digits-StartsDigit :
    (fuel n : ℕ) (rest : Text) → StartsDigit rest → StartsDigit (digits fuel n rest)
unfolding digits
digits-StartsDigit zero n rest h = h
digits-StartsDigit (suc fuel) n rest h = elim (Bool-cases (ltb n 10)) [
  | inl small ↦ rw small (b'0' + n, rest, refl, digit-is_digit n (ground arith))
  | inr large ↦ rw large (
      digits-StartsDigit fuel (n / 10) ((b'0' + n % 10) ∷ rest)
        (b'0' + n % 10, rest, refl, digit-is_digit (n % 10) (omega arith)))
]

all_digits-StartsDigit : (n : ℕ) → StartsDigit (digits 20 n [])
unfolding digits
all_digits-StartsDigit n = elim (Bool-cases (ltb n 10)) [
  | inl small ↦ rw small (b'0' + n, [], refl, digit-is_digit n (ground arith))
  | inr large ↦ rw large (
      digits-StartsDigit 19 (n / 10) ((b'0' + n % 10) ∷ [])
        (b'0' + n % 10, [], refl, digit-is_digit (n % 10) (omega arith)))
]

parse_uint-digits : (n : ℕ) → n < word_mod → parse_uint (digits 20 n []) ≡ some n
unfolding parse_digits
parse_uint-digits n h =
    let (c, s, e, d) = all_digits-StartsDigit n in
    let parsed = parse_digits-digits 20 n [] (omega arith) in rw (e) (rw e at parsed)

parse_int-digits : (n : ℕ) → n < int_min → parse_int (digits 20 n []) ≡ some n
unfolding parse_int
parse_int-digits n h =
    let (c, s, e, d) = all_digits-StartsDigit n in
    let parsed = parse_uint-digits n (omega arith) in
    let no_minus : (c == b'-') ≡ false = ground (arith, d) in
    let no_plus : (c == b'+') ≡ false = ground (arith, d) in
    let small : ltb n int_min ≡ true = ground arith in
    rw (e, no_minus, no_plus, rw e at parsed, small) refl

-- Every 64-bit integer that is printed in decimal is read back.
pub parse_int-print_int : (n : ℕ) → n < word_mod → parse_int (print_int n) ≡ some n
unfolding parse_int
parse_int-print_int n h = elim (Bool-cases (is_neg n)) [
  | inr positive ↦ rw positive (parse_int-digits n (ground arith))
  | inl below ↦
      let parsed = parse_uint-digits (word_mod - n) (ground arith) in
      let some_size : (word_mod - n == 0) ≡ false = ground arith in
      let fits : leb (word_mod - n) int_min ≡ true = ground arith in
      let back : word_mod - (word_mod - n) ≡ n = omega arith in
      rw (below, parsed, some_size, fits, back) refl
]

parsed_some : (s : Text) (n : ℕ) → parse_int s ≡ some n → text_eq s [] ≡ false
unfolding parse_int
parsed_some [] n e = absurd (cc e)
parsed_some (c ∷ s) n e = refl

-- What a variable holds that is set to a printed integer, or is not set.
abbrev pub printed : Option ℕ → Option Text
printed none = none
printed (some n) = some (print_int n)

abbrev pub if_int32 : ℕ → Option ℕ → ℕ
if_int32 otherwise none = otherwise
if_int32 otherwise (some n) = if is_int32 n then n else otherwise

-- A variable that is set to a printed 64-bit integer gives that integer if it is an `int32`, and
-- otherwise, as a variable that is not set, what is given for the case.
pub get_int32_or-print_int :
    (env : Env) (env_name : Text) (value : Option ℕ) (otherwise : ℕ)
    → or_else 0 value < word_mod
    → env env_name ≡ printed value
    → get_int32_or env env_name otherwise ≡ if_int32 otherwise value
unfolding get_int32_or get parse_int32
get_int32_or-print_int env env_name none otherwise h e = rw e refl
get_int32_or-print_int env env_name (some n) otherwise h e =
    let parsed = parse_int-print_int n h in
    rw (e, parsed_some (print_int n) n parsed, parsed) (by_range (is_int32 n))
  where
    by_range :
        (b : Bool) → or_else otherwise (if b then some n else none) ≡ (if b then n else otherwise)
    by_range true = refl
    by_range false = refl

or_else-is_int32 :
    (otherwise : ℕ) (o : Option ℕ)
    → is_int32 otherwise ≡ true
    → is_int32 (or_else otherwise (o >>= λ n. if is_int32 n then some n else none)) ≡ true
or_else-is_int32 otherwise none h = h
or_else-is_int32 otherwise (some n) h = elim (Bool-cases (is_int32 n)) [
  | inl k ↦ rw k k
  | inr k ↦ rw k h
]

-- Whatever a variable is set to, the result is an `int32`, as is what is given for a variable that is
-- not set or holds no `int32`.
pub get_int32_or_bound :
    (env : Env) (env_name : Text) (otherwise : ℕ)
    → is_int32 otherwise ≡ true
    → is_int32 (get_int32_or env env_name otherwise) ≡ true
unfolding get_int32_or parse_int32
get_int32_or_bound env env_name otherwise h = elim (Option-cases (get env env_name)) [
  | inl k ↦ rw k h
  | inr (s, k) ↦ rw k (or_else-is_int32 otherwise (parse_int s) h)
]
