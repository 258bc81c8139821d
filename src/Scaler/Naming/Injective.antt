-- ===== src/Scaler/Naming/Injective.antt =====
-- Different names have different metric names.
use http_add_on.Prelude.{
  ℕ, ◌/◌, ◌%◌, ◌<◌, ◌≡◌, sym, Bool, true, false, some, [], ◌∷◌, ◌++◌, if◌then◌else◌, arith, refl,
  Bool-cases, inl, inr,
}
use http_add_on.Prelude.Text.{Text, codes}
use http_add_on.Api.{NamespacedName, to_string}
use http_add_on.Scaler.Naming.{is_safe, hex_digit, escape_rune, escape_string, metric_name}

abbrev pub IsAscii : Text → Type 0
IsAscii [] = Unit
IsAscii (c ∷ s) = (c < 128) × IsAscii s

http-IsAscii : IsAscii (codes "http-")
http-IsAscii = (omega arith, (omega arith, (omega arith, (omega arith, (omega arith, tt)))))

IsAscii-append : (s t : Text) → IsAscii s → IsAscii t → IsAscii (s ++ t)
IsAscii-append [] t hs ht = ht
IsAscii-append (c ∷ s) t hs ht = (hs.0, IsAscii-append s t hs.1 ht)

hex_digit-injective : (a b : ℕ) → a < 16 → b < 16 → hex_digit a ≡ hex_digit b → a ≡ b
hex_digit-injective a b ha hb e = ground arith

underscore_unsafe : (c : ℕ) → is_safe c ≡ true → c ≡ b'_' → ⊥
unfolding is_safe
underscore_unsafe c h e = ground arith

rune_injective :
    (c d : ℕ)
    → c < 128
    → d < 128
    → hex_digit (c / 16) ≡ hex_digit (d / 16)
    → hex_digit (c % 16) ≡ hex_digit (d % 16)
    → c ≡ d
rune_injective c d hc hd hi lo = omega (
  arith,
  hex_digit-injective (c / 16) (d / 16) (omega arith) (omega arith) hi,
  hex_digit-injective (c % 16) (d % 16) (omega arith) (omega arith) lo,
)

unequal_ends : (c : ℕ) (s : Text) {P : Type 0} → escape_string (c ∷ s) ≡ [] → P
unfolding escape_string
unequal_ends c s e = elim (Bool-cases (is_safe c)) [ inl y ↦ absurd (cc) | inr y ↦ absurd (cc) ]

-- What the escape of one code point and the rest of a text are in.
agree_safe : (c d : ℕ) (a b : Text) → c ∷ a ≡ d ∷ b → (c ≡ d) × (a ≡ b)
agree_safe c d a b e = (cc, cc)

agree_mixed : (c d : ℕ) (a b : Text) → is_safe c ≡ true → c ∷ a ≡ escape_rune d ++ b → ⊥
unfolding escape_rune
agree_mixed c d a b h e = underscore_unsafe c h (cc)

agree_unsafe :
    (c d : ℕ) (a b : Text)
    → c < 128
    → d < 128
    → escape_rune c ++ a ≡ escape_rune d ++ b
    → (c ≡ d) × (a ≡ b)
unfolding escape_rune
agree_unsafe c d a b hc hd e = (rune_injective c d hc hd (cc) (cc), cc)

-- What the first code points and the rest of two escaped texts have in common.
heads_agree :
    (c d : ℕ)
    → c < 128
    → d < 128
    → (a b : Text) (x y : Bool) → is_safe c ≡ x
    → is_safe d ≡ y
    → (if x then c ∷ [] else escape_rune c) ++ a ≡ (if y then d ∷ [] else escape_rune d) ++ b
    → (c ≡ d) × (a ≡ b)
heads_agree c d hc hd a b true true hx hy e = agree_safe c d a b e
heads_agree c d hc hd a b true false hx hy e = absurd (agree_mixed c d a b hx e)
heads_agree c d hc hd a b false true hx hy e = absurd (agree_mixed d c b a hy (sym e))
heads_agree c d hc hd a b false false hx hy e = agree_unsafe c d a b hc hd e

escape_string-injective :
    (s t : Text) → IsAscii s → IsAscii t → escape_string s ≡ escape_string t → s ≡ t
unfolding escape_string
escape_string-injective [] [] hs ht e = refl
escape_string-injective [] (d ∷ t) hs ht e = unequal_ends d t (sym e)
escape_string-injective (c ∷ s) [] hs ht e = unequal_ends c s e
escape_string-injective (c ∷ s) (d ∷ t) hs ht e =
    let h =
      heads_agree c d hs.0 ht.0 (escape_string s) (escape_string t) (is_safe c) (is_safe d) refl
        refl e in
    let ih = escape_string-injective s t hs.1 ht.1 h.1 in cc

append_cancel : (p : Text) {a b : Text} → p ++ a ≡ p ++ b → a ≡ b
append_cancel [] e = e
append_cancel (c ∷ p) e = append_cancel p (cc)

-- Two names of ASCII characters that are written differently have different metric names.
pub metric_name-injective :
    (n m : NamespacedName)
    → IsAscii (to_string n)
    → IsAscii (to_string m)
    → metric_name (some n) ≡ metric_name (some m)
    → to_string n ≡ to_string m
unfolding metric_name
metric_name-injective n m hn hm e = append_cancel (codes "http-") (
    escape_string-injective _ _ (IsAscii-append (codes "http-") (to_string n) http-IsAscii hn)
      (IsAscii-append (codes "http-") (to_string m) http-IsAscii hm) e)
