-- ===== src/Queue/Float.antt =====
-- Go's `float64` with the operations of it that the program uses. The language of this library has
-- no floating point, so what is stated holds for whatever these operations compute.
use http_add_on.Prelude.{ℕ}

pub record Float64 : Type 1 where
  pub Carrier : Type 0
  -- of a 64-bit integer, and back, as bit patterns
  pub of_int : ℕ → Carrier
  pub to_int : Carrier → ℕ
  pub pow10 : ℕ → Carrier
  pub plus : Carrier → Carrier → Carrier
  pub times : Carrier → Carrier → Carrier
  pub divide : Carrier → Carrier → Carrier
  pub floor : Carrier → Carrier
  pub ceil : Carrier → Carrier
  pub zero : Carrier
