-- ===== src/Queue/Average.antt =====
-- `WindowAverage` of pkg/queue/bucketing.go. A run-time panic is `none`.
pub mod Sums
pub mod Live
use Prim.Native.Nat.{min}
use http_add_on.Prelude.{
  ℕ, zero, suc, ◌+◌, ◌-◌, ◌/◌, ◌%◌, Option, none, some, List, ltb, leb, ◌==◌, if◌then◌else◌, ◌>>=◌,
  length, get_or,
}
use http_add_on.Prelude.Word.{sub64}
use http_add_on.Queue.Time.{truncate, sub_time}
use http_add_on.Queue.Buckets.{RequestsBuckets, time_to_index}
use http_add_on.Queue.Float.{Float64}

abbrev pub precision : ℕ
precision = 3

abbrev pub round_to_n_digits : (f : Float64) → ℕ → f.Carrier → f.Carrier
round_to_n_digits f n x = let p = f.pow10 n in f.divide (f.floor (f.times x p)) p

-- The loop that takes the buckets `i`, `i + 1`, … of so many rounds from `ret`.
unfoldable pub take_outdated : ℕ → ℕ → List ℕ → ℕ → ℕ
take_outdated zero i buckets ret = ret
take_outdated (suc rounds) i buckets ret =
    take_outdated rounds (suc i) buckets (sub64 ret (get_or buckets (i % length buckets) 0))

-- `numB`. The source takes the minimum of the two numbers as floats, which these integers are
-- whenever the first is at most the second.
unfoldable pub valid_buckets : RequestsBuckets → Option ℕ
valid_buckets t =
    if t.granularity == 0
    then none
    else some (min (sub_time t.last_write t.first_write / t.granularity + 1) (length t.buckets))

unfoldable pub window_average : (f : Float64) → RequestsBuckets → ℕ → Option f.Carrier
window_average f t now =
    let now' = truncate now t.granularity in
    if leb now' t.last_write
    then (do
      num_b ← valid_buckets t
      some (round_to_n_digits f precision (f.divide (f.of_int t.window_total) (f.of_int num_b))))
    else if ltb (sub_time now' t.last_write) t.window
    then (do
      st_idx ← time_to_index t t.last_write
      e_idx ← time_to_index t now'
      let ret = take_outdated (e_idx - st_idx) (suc st_idx) t.buckets t.window_total
      num_b ← valid_buckets t
      some (round_to_n_digits f precision (f.divide (f.of_int ret) (f.of_int num_b))))
    else some f.zero
