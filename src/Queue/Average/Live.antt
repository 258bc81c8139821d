-- ===== src/Queue/Average/Live.antt =====
-- `WindowAverage` against the abstract window.
use Prim.Native.Nat.{min}
use mathlib.Core.Path.{ap₂}
use mathlib.Core.Bool.{true, false}
use native.Mathlib.Decide.{dec_lt}
use native.Mathlib.Nat.{mul-sub, div-lt_iff_lt-mul}
use http_add_on.Prelude.{
  ℕ, zero, suc, ◌+◌, ◌-◌, ◌*◌, ◌/◌, ◌≤◌, ◌<◌, ◌≡◌, refl, ◌∙◌, ap, some, arith, ltb, leb, ◌==◌,
  if◌then◌else◌, length,
}
use http_add_on.Prelude.Word.{add64}
use http_add_on.Queue.Time.{second, epoch, epoch_seconds, max_duration, sub_time, truncate}
use http_add_on.Queue.Float.{Float64}
use http_add_on.Queue.Buckets.{RequestsBuckets, bucket_count, time_to_index}
use http_add_on.Queue.Buckets.Index.{
  truncate-eq-bucket, time_to_index-eq-bucket, epoch-le-bucket, bucket_count-le_iff,
  bucket_of_start,
}
use http_add_on.Queue.Buckets.Window.{Window, Represents, n_pos}
use http_add_on.Queue.Average.{
  precision, round_to_n_digits, take_outdated, valid_buckets, window_average,
}
use http_add_on.Queue.Average.Sums.{ring_sum, take_outdated-turn}

-- The amounts of `k` buckets from bucket `c`.
pub tally_sum : Window → ℕ → ℕ → ℕ
tally_sum s c zero = 0
tally_sum s c (suc k) = add64 (s.tally c) (tally_sum s (suc c) k)

-- What was recorded in the buckets that the window still covers at bucket `b`: the `n` buckets up to
-- the later of `b` and the last write.
abbrev pub live_total : ℕ → ℕ → Window → ℕ
live_total n b s = tally_sum s (s.last + 1 + (b - s.last) - n) (n - (b - s.last))

-- How many buckets have been in use, at most a window of them.
abbrev pub used_buckets : ℕ → Window → ℕ
used_buckets n s = min (s.last - s.first + 1) n

-- The average that the window has at bucket `b`.
abbrev pub average : (f : Float64) → ℕ → ℕ → Window → f.Carrier
average f n b s =
    if leb (s.last + n) b
    then f.zero
    else round_to_n_digits f precision
        (f.divide (f.of_int (live_total n b s)) (f.of_int (used_buckets n s)))

module _ (gs e w : ℕ) (pos : 0 < gs) (aligned : gs * e ≡ epoch_seconds) (some_window : 0 < w)
    (fits : w ≤ max_duration) where
  abbrev g : ℕ
  g = second * gs

  abbrev n : ℕ
  n = bucket_count w g

  g_pos : 0 < g
  g_pos = omega arith

  ring_sum-tally_sum :
      (t : RequestsBuckets) (s : Window) (k m : ℕ)
      → Represents gs e w t s
      → s.last < k + e + n
      → k + e + m ≤ s.last + 1
      → ring_sum t.buckets k m ≡ tally_sum s (k + e) m
  unfolding ring_sum tally_sum
  ring_sum-tally_sum t s k zero r h1 h2 = refl
  ring_sum-tally_sum t s k (suc m) r h1 h2 =
      let back : k + e - e ≡ k = omega arith in
      let slot = rw back at (r.slots (k + e) (omega arith) (omega arith) h1) in
      let next : suc k + e ≡ suc (k + e) = omega arith in
      ap₂ add64 (rw r.size slot)
        (ring_sum-tally_sum t s (suc k) m r (omega arith) (omega arith) ∙ rw next)

  -- The time since the first write may be past the largest duration, but the window is not.
  used_eq : (d : ℕ) → min (min (g * d) max_duration / g + 1) n ≡ min (d + 1) n
  used_eq d = elim (dec_lt max_duration (g * d)) [
    | yes long ↦
        let q : ℕ = max_duration / g in
        let over : max_duration < suc q * g =
          (div-lt_iff_lt-mul {k = g} {x = max_duration} {y = suc q} g_pos).0 (omega arith) in
        let room : n ≤ suc q = (bucket_count-le_iff w g (suc q) g_pos).1 (omega (arith, fits)) in
        let least : min (g * d) max_duration ≡ max_duration = omega arith in
        let more : q < suc d =
          (div-lt_iff_lt-mul {k = g} {x = max_duration} {y = suc d} g_pos).1 (grind arith) in
        rw least (omega arith)
    | no short ↦
        let least : min (g * d) max_duration ≡ g * d = omega arith in
        rw (least, bucket_of_start gs e pos aligned d)
  ]

  valid_buckets-eq :
      (t : RequestsBuckets) (s : Window)
      → Represents gs e w t s
      → valid_buckets t ≡ some (used_buckets n s)
  unfolding valid_buckets
  valid_buckets-eq t s r =
      let gap = mul-sub g s.last s.first in
      let f : (t.granularity == 0) ≡ false = ground (arith, r.granularity, g_pos) in
      rw (f, r.granularity, r.last_write, r.first_write, r.size, ← gap, used_eq)

  -- What is left of the total at bucket `b`, once the outdated buckets are taken off.
  live-eq :
      (t : RequestsBuckets) (s : Window) (m : ℕ)
      → Represents gs e w t s
      → e + n ≤ s.last + 1
      → m ≤ n
      → take_outdated m (suc (s.last - e)) t.buckets t.window_total
        ≡ tally_sum s (s.last + 1 + m - n) (n - m)
  live-eq t s m r old h =
      let k : ℕ = s.last + 1 - n - e in
      let turned : suc (s.last - e) ≡ k + length t.buckets =
        omega (arith, r.size, n_pos gs e w pos aligned some_window fits) in
      let start : k + m + e ≡ s.last + 1 + m - n = omega arith in
      rw (r.total, turned)
        (take_outdated-turn t.buckets k m (n - m)
            (omega (arith, r.size, n_pos gs e w pos aligned some_window fits))
            (omega (arith, r.size))
          ∙ ring_sum-tally_sum t s (k + m) (n - m) r
              (omega (arith, n_pos gs e w pos aligned some_window fits)) (omega arith)
          ∙ rw start)

  module _ (t : RequestsBuckets) (s : Window) (now : ℕ) (late : epoch ≤ now)
      (r : Represents gs e w t s) (old : e + n ≤ s.last + 1) where
    abbrev b : ℕ
    b = now / g

    abbrev at : ℕ
    at = truncate now t.granularity

    at-eq : at ≡ g * b
    at-eq = ap (truncate now) r.granularity ∙ truncate-eq-bucket gs e pos aligned now

    index_of_start : (c : ℕ) → e ≤ c → time_to_index t (g * c) ≡ some (c - e)
    index_of_start c h =
        time_to_index-eq-bucket gs e pos aligned t (g * c) r.granularity (grind arith)
        ∙ rw (bucket_of_start gs e pos aligned c)

    start_le : (a c : ℕ) → a ≤ c → g * a ≤ g * c
    start_le a c h = grind (arith, g_pos)

    start_lt : (a c : ℕ) → a < c → g * a < g * c
    start_lt a c h = grind (arith, g_pos)

    some_buckets : 0 < n
    some_buckets = n_pos gs e w pos aligned some_window fits

    now_early : b ≤ s.last → leb at t.last_write ≡ true
    now_early h = ground (arith, at-eq, r.last_write, start_le b s.last h)

    now_later : s.last < b → leb at t.last_write ≡ false
    now_later h = ground (arith, at-eq, r.last_write, start_lt s.last b h)

    now_near : b < s.last + n → ltb (sub_time at t.last_write) t.window ≡ true
    now_near h =
        let k : ¬ (w ≤ g * (b - s.last)) = λ x.
          absurd (omega (arith, (bucket_count-le_iff w g (b - s.last) g_pos).1 x, some_buckets)) in
        ground (arith, at-eq, r.last_write, r.window, mul-sub g b s.last, k)

    now_far : s.last + n ≤ b → ltb (sub_time at t.last_write) t.window ≡ false
    now_far h =
        let k : w ≤ g * (b - s.last) =
          (bucket_count-le_iff w g (b - s.last) g_pos).0 (omega arith) in
        ground (arith, at-eq, r.last_write, r.window, mul-sub g b s.last, k, fits)

    index_of_last : time_to_index t t.last_write ≡ some (s.last - e)
    index_of_last =
        ap (time_to_index t) r.last_write ∙ index_of_start s.last (omega (arith, some_buckets))

    index_of_now : time_to_index t at ≡ some (b - e)
    index_of_now =
        ap (time_to_index t) at-eq ∙ index_of_start b (epoch-le-bucket gs e pos aligned now late)

    -- On a ring that holds the window `s`, a whole window of buckets past the epoch, `WindowAverage`
    -- does not panic, and averages what was recorded in the buckets that the window still covers
    -- over the buckets from the first write to the last, at most a window of them; so the divisor
    -- does not shrink while nothing is written, though the covered buckets do. After a whole window
    -- with no write the average is zero.
    pub window_average-eq :
        (f : Float64)
        → window_average f t now
          ≡ some (average f (bucket_count w (second * gs)) (now / (second * gs)) s)
    unfolding window_average take_outdated
    window_average-eq f = elim (dec_lt s.last b) [
      | no early ↦
          let f1 : leb at t.last_write ≡ true = now_early (omega arith) in
          let f2 : leb (s.last + n) b ≡ false = ground (arith, some_buckets) in
          let none_out : b - s.last ≡ 0 = omega arith in
          rw (f1, valid_buckets-eq t s r, f2, none_out) (rw (← live-eq t s 0 r old (omega arith)))
      | yes later ↦ elim (dec_lt b (s.last + n)) [
        | yes near ↦
            let f1 : leb at t.last_write ≡ false = now_later later in
            let f2 : leb (s.last + n) b ≡ false = ground arith in
            let f3 : ltb (sub_time at t.last_write) t.window ≡ true = now_near near in
            let rounds : b - e - (s.last - e) ≡ b - s.last = omega (arith, some_buckets) in
            rw (f1, f3, index_of_last, index_of_now, valid_buckets-eq t s r, f2, rounds)
              (rw (live-eq t s (b - s.last) r old (omega arith)))
        | no far ↦
            let f1 : leb at t.last_write ≡ false = now_later later in
            let f2 : leb (s.last + n) b ≡ true = ground arith in
            let f3 : ltb (sub_time at t.last_write) t.window ≡ false = now_far (omega arith) in
            rw (f1, f3, f2)
      ]
    ]
