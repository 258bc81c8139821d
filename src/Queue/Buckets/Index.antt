-- ===== src/Queue/Buckets/Index.antt =====
-- Bucket numbers. With a granularity of `gs` whole seconds that divides the seconds between Go's
-- zero time and the Unix epoch, into `e` buckets, a time lies in bucket `now / (second * gs)`.
use native.Mathlib.Nat.{
  div-add-mod, le-div_iff_mul-le, div-lt_iff_lt-mul, add-mul-div_left, div-div-eq-div-mul,
}
use http_add_on.Prelude.{ℕ, suc, ◌+◌, ◌-◌, ◌*◌, ◌/◌, ◌≤◌, ◌<◌, ◌≡◌, ◌↔◌, some, arith, ap}
use http_add_on.Queue.Time.{second, truncate, epoch, epoch_seconds}
use http_add_on.Queue.Buckets.{RequestsBuckets, bucket_count, time_to_index}

-- The quotient is the number between these bounds.
div_unique : (x y q : ℕ) → 0 < y → q * y ≤ x → x < suc q * y → x / y ≡ q
div_unique x y q h lo hi = omega (
  arith,
  (le-div_iff_mul-le {k = y} {x = q} {y = x} h).1 lo,
  (div-lt_iff_lt-mul {k = y} {x = x} {y = suc q} h).1 hi,
)

module _ (gs e : ℕ) (pos : 0 < gs) (aligned : gs * e ≡ epoch_seconds) where
  abbrev bucket_of : ℕ → ℕ
  bucket_of t = t / (second * gs)

  pub truncate-eq-bucket : (t : ℕ) → truncate t (second * gs) ≡ second * gs * (t / (second * gs))
  truncate-eq-bucket t = ground (arith, div-add-mod t (second * gs))

  pub bucket_of_start : (b : ℕ) → second * gs * b / (second * gs) ≡ b
  bucket_of_start b =
      div_unique (second * gs * b) (second * gs) b (omega arith) (grind arith) (grind arith)

  index-eq : (t : ℕ) → epoch ≤ t → (t / second - epoch_seconds) / gs ≡ t / (second * gs) - e
  index-eq t h =
      let x : ℕ = t / second in
      let whole : (x - epoch_seconds) + gs * e ≡ x = omega arith in
      let split = add-mul-div_left (x - epoch_seconds) e {y = gs} pos in
      omega (arith, ap (λ (y : ℕ). y / gs) whole, split, div-div-eq-div-mul t second gs)

  pub time_to_index-eq-bucket :
      (r : RequestsBuckets) (t : ℕ)
      → r.granularity ≡ second * gs
      → epoch ≤ t
      → time_to_index r t ≡ some (t / (second * gs) - e)
  unfolding time_to_index
  time_to_index-eq-bucket r t g h = ground (arith, index-eq t h)

  pub epoch-le-bucket : (t : ℕ) → epoch ≤ t → e ≤ t / (second * gs)
  epoch-le-bucket t h =
      (le-div_iff_mul-le {k = second * gs} {x = e} {y = t} (omega arith)).1 (omega arith)

-- `window / granularity`, rounded up, is at most `k` just when `k` buckets cover the window.
pub bucket_count-le_iff : (w g k : ℕ) → 0 < g → (bucket_count w g ≤ k) ↔ (w ≤ g * k)
bucket_count-le_iff w g k h =
    let below = div-lt_iff_lt-mul {k = g} {x = w + (g - 1)} {y = suc k} h in
    (
      λ le. let p = below.0 (omega arith) in grind arith,
      λ le. let p = below.1 (grind arith) in omega arith,
    )
