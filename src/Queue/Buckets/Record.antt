-- ===== src/Queue/Buckets/Record.antt =====
-- `Record` against the abstract window.
use native.Mathlib.Decide.{dec_lt}
use native.Mathlib.Nat.{mul-sub}
use http_add_on.Prelude.{
  ℕ, suc, ◌+◌, ◌-◌, ◌*◌, ◌/◌, ◌≤◌, ◌<◌, ◌≡◌, ◌≢◌, ◌∙◌, ap, inl, inr, false, none, some, arith, ltb,
  if◌then◌else◌, ◌>>=◌, length, Bool-cases,
}
use http_add_on.Queue.Time.{second, epoch, epoch_seconds, max_duration, truncate}
use http_add_on.Queue.Buckets.{
  RequestsBuckets, bucket_count, reset, clear_buckets, add_value, advance, update_first_write,
  record_value, time_to_index,
}
use http_add_on.Queue.Buckets.Index.{
  truncate-eq-bucket, time_to_index-eq-bucket, epoch-le-bucket, bucket_count-le_iff,
  bucket_of_start,
}
use http_add_on.Queue.Buckets.Window.{
  Window, write, Represents, n_pos, add_value-Represents, reset-Represents, slide-Represents,
}
use http_add_on.Queue.Buckets.Write.{written, write-old, write-earlier, write-slide, write-jump}

module _ (gs e w : ℕ) (pos : 0 < gs) (aligned : gs * e ≡ epoch_seconds) (some_window : 0 < w)
    (fits : w ≤ max_duration) where
  abbrev g : ℕ
  g = second * gs

  abbrev n : ℕ
  n = bucket_count w g

  g_pos : 0 < g
  g_pos = omega arith

  -- The tests of `Record`, on times that start their buckets.
  window-le_iff : (a b : ℕ) → a + n ≤ b → w + g * a ≤ g * b
  window-le_iff a b h =
      let p = (bucket_count-le_iff w g (b - a) g_pos).0 (omega arith) in grind arith

  window-lt_iff : (a b : ℕ) → b < a + n → g * b < w + g * a
  window-lt_iff a b h = elim (dec_lt (g * b) (w + g * a)) [
    | yes p ↦ p
    | no p ↦
        let q : w ≤ g * (b - a) = omega (arith, mul-sub g b a) in
        let m : n ≤ b - a = (bucket_count-le_iff w g (b - a) g_pos).1 q in
        absurd (omega (arith, n_pos gs e w pos aligned some_window fits))
  ]

  start_lt : (a b : ℕ) → a < b → g * a < g * b
  start_lt a b h = grind (arith, g_pos)

  epoch_positive : 0 < e
  epoch_positive = grind arith

  far_from_zero : (b : ℕ) → e ≤ b → n ≤ b
  far_from_zero b h = (bucket_count-le_iff w g b g_pos).1 (grind arith)

  module _ (t : RequestsBuckets) (s : Window) (now v : ℕ) (late : epoch ≤ now)
      (r : Represents gs e w t s) where
    abbrev b : ℕ
    b = now / g

    abbrev at : ℕ
    at = truncate now t.granularity

    after_epoch : e ≤ b
    after_epoch = epoch-le-bucket gs e pos aligned now late

    at-eq : at ≡ g * b
    at-eq = ap (truncate now) r.granularity ∙ truncate-eq-bucket gs e pos aligned now

    index-now : time_to_index t now ≡ some (b - e)
    index-now = time_to_index-eq-bucket gs e pos aligned t now r.granularity late

    abbrev Goal : Type 0
    Goal =
        (t' : RequestsBuckets) × (record_value t now v ≡ some t')
        × Represents gs e w t' (write n b v s)

    -- The value's time has left the window.
    record_value-old : b + n ≤ s.last → record_value t now v ≡ some t
    unfolding record_value
    record_value-old h = rw index-now (
        ground (arith, at-eq, r.last_write, r.window, window-le_iff b s.last h, g_pos, some_window))

    -- The value goes into the bucket of the last write.
    record_value-same : b ≡ s.last → record_value t now v ≡ add_value t (b - e) v
    unfolding record_value
    record_value-same h =
        rw index-now (ground (arith, at-eq, r.last_write, ap (λ (x : ℕ). g * x) h))

    -- The value's time lies before the last write, in the window.
    record_value-earlier :
        b < s.last
        → s.last < b + n
        → record_value t now v ≡ add_value (update_first_write t at) (b - e) v
    unfolding record_value update_first_write
    record_value-earlier h k = rw index-now (
        ground
          (arith, at-eq, r.last_write, r.window, start_lt b s.last h, window-lt_iff b s.last k))

    -- The value's time lies after the last write.
    record_value-later :
        s.last < b
        → record_value t now v
          ≡ (do moved ← advance (update_first_write t at) at (b - e); add_value moved (b - e) v)
    unfolding record_value update_first_write
    record_value-later h =
        rw index-now
          (ground (arith, at-eq, r.last_write, r.window, start_lt s.last b h, some_window))

    e-le-last : s.last < b → b < s.last + n → e ≤ s.first
    e-le-last h k = elim r.started [
      | inl z ↦ absurd (omega (arith, far_from_zero b after_epoch))
      | inr p ↦ p
    ]

    first-ne-zero : b ≤ s.last → s.first ≢ 0
    first-ne-zero h = elim r.started [
      | inl z ↦ absurd (omega (arith, after_epoch, epoch_positive))
      | inr p ↦ omega (arith, epoch_positive)
    ]

    -- Bucket 0 is the zero time, which no write has.
    first_positive : b ≤ s.last → 0 < g * s.first
    first_positive h = omega (arith, start_lt 0 s.first (omega (arith, first-ne-zero h)))

    update_first_write-eq :
        b ≤ s.last
        → update_first_write t at ≡ (if ltb b s.first then record t { first_write = at } else t)
    unfolding update_first_write
    update_first_write-eq h = ground (
      arith,
      at-eq,
      r.first_write,
      first_positive h,
      start_lt b s.first,
      start_lt s.first b,
      ap (λ (x : ℕ). g * x) {x = b} {y = s.first},
    )

    earlier_first :
        b ≤ s.last → Represents gs e w (record t { first_write = at }) (record s { first = b })
    earlier_first h = record {
      granularity = r.granularity;
      window = r.window;
      first_write = at-eq;
      last_write = r.last_write;
      size = r.size;
      total = r.total;
      ordered = h;
      started = inr after_epoch;
      slots = r.slots;
      future = r.future;
    }

    update_first_write-Represents :
        b ≤ s.last
        → Represents gs e w
            (update_first_write t at)
            (record s { first = if ltb b s.first then b else s.first })
    update_first_write-Represents h = elim (Bool-cases (ltb b s.first)) [
      | inl p ↦ rw (update_first_write-eq h) (rw p (earlier_first h))
      | inr p ↦ rw (update_first_write-eq h) (rw p r)
    ]

    update_first_write-later : s.last < b → b < s.last + n → update_first_write t at ≡ t
    unfolding update_first_write
    update_first_write-later h k = ground (
      arith,
      at-eq,
      r.first_write,
      e-le-last h k,
      epoch_positive,
      start_lt 0 s.first,
      start_lt s.first b,
      r.ordered,
    )

    index-last : e ≤ s.last → time_to_index t t.last_write ≡ some (s.last - e)
    index-last h =
        time_to_index-eq-bucket gs e pos aligned t t.last_write r.granularity
          (rw r.last_write (grind arith))
        ∙ rw (r.last_write, bucket_of_start gs e pos aligned s.last)

    slide :
        s.last < b
        → b < s.last + n
        → advance (update_first_write t at) at (b - e)
          ≡ some (record (clear_buckets ((b - e) - (s.last - e)) (suc (s.last - e)) t) {
            last_write = at;
          })
    unfolding advance update_first_write
    slide h k = rw (update_first_write-later h k) (
        ground (
          arith,
          at-eq,
          r.last_write,
          r.window,
          window-lt_iff s.last b k,
          index-last (omega (arith, e-le-last h k, r.ordered)),
          mul-sub g b s.last,
          start_lt s.last b h,
        ))

    jump :
        s.last + n ≤ b
        → advance (update_first_write t at) at (b - e)
          ≡ some (record (reset (update_first_write t at) at) { last_write = at })
    unfolding advance update_first_write
    jump h = ground (arith, at-eq, r.last_write, r.window, window-le_iff s.last b h)

    kept_granularity : (update_first_write t at).granularity ≡ second * gs
    unfolding update_first_write
    kept_granularity = ground (arith, r.granularity)

    kept_window : (update_first_write t at).window ≡ w
    unfolding update_first_write
    kept_window = ground (arith, r.window)

    kept_size : length (update_first_write t at).buckets ≡ n
    unfolding update_first_write
    kept_size = ground (arith, r.size)

    update_first_write-same : b ≡ s.last → update_first_write t at ≡ t
    update_first_write-same h =
        let f : ltb b s.first ≡ false = ground (arith, r.ordered) in
        update_first_write-eq (omega arith) ∙ rw f

    record_value-not_later :
        b ≤ s.last
        → s.last < b + n
        → record_value t now v ≡ add_value (update_first_write t at) (b - e) v
    record_value-not_later h k = elim (dec_lt b s.last) [
      | yes p ↦ record_value-earlier p k
      | no p ↦
          let same : b ≡ s.last = omega arith in
          record_value-same same ∙ rw (update_first_write-same same)
    ]

    some_buckets : 0 < n
    some_buckets = n_pos gs e w pos aligned some_window fits

    -- From a ring that holds `u`, with `u` covering the bucket, `add_value` completes the step.
    finish :
        (x : RequestsBuckets) (u : Window)
        → b ≤ u.last
        → u.last < b + n
        → Represents gs e w x u
        → record_value t now v ≡ add_value x (b - e) v
        → write n b v s ≡ written b v u
        → Goal
    finish x u h k ru eq eqw =
        let (x', done, rx) =
          add_value-Represents gs e w pos aligned some_window fits x u b v after_epoch h k ru in
        (x', eq ∙ done, rw eqw rx)

    -- On a ring that holds the window `s`, `Record` does not panic, and leaves a ring that holds
    -- `s` with the value written to the bucket of `now`. It holds for every time from the Unix
    -- epoch on, in or out of order, where the granularity is a number of whole seconds that divides
    -- the seconds from Go's zero time to the epoch, and the window is a positive duration.
    pub record_value-Represents :
        (t' : RequestsBuckets) × (record_value t now v ≡ some t')
        × Represents gs e w t' (write (bucket_count w (second * gs)) (now / (second * gs)) v s)
    record_value-Represents = elim (dec_lt s.last b) [
      | yes later ↦ elim (dec_lt b (s.last + n)) [
        | yes near ↦
            finish
              (record (clear_buckets ((b - e) - (s.last - e)) (suc (s.last - e)) t) {
                last_write = at;
              })
              (record s { last = b }) (omega arith)
              (omega (arith, n_pos gs e w pos aligned some_window fits))
              (slide-Represents gs e w pos aligned some_window fits t s b at
                (omega (arith, e-le-last later near, r.ordered)) later near at-eq r
                (e-le-last later near))
              (record_value-later later ∙ rw (slide later near))
              (write-slide n b v s some_buckets later near
                (omega (arith, e-le-last later near, epoch_positive)) r.ordered)
        | no far ↦
            finish (record (reset (update_first_write t at) at) { last_write = at })
              (record s { first = b; last = b }) (omega arith)
              (omega (arith, n_pos gs e w pos aligned some_window fits))
              (reset-Represents gs e w pos aligned some_window fits (update_first_write t at) s b at
                after_epoch (omega arith) at-eq kept_granularity kept_window kept_size r.future)
              (record_value-later later ∙ rw (jump (omega arith)))
              (write-jump n b v s some_buckets (omega arith))
      ]
      | no earlier ↦ elim (dec_lt s.last (b + n)) [
        | yes live ↦
            finish (update_first_write t at)
              (record s { first = if ltb b s.first then b else s.first }) (omega arith) live
              (update_first_write-Represents (omega arith))
              (record_value-not_later (omega arith) live)
              (write-earlier n b v s some_buckets (omega arith) live (first-ne-zero (omega arith)))
        | no old ↦
            (t, record_value-old (omega arith), rw (write-old n b v s some_buckets (omega arith)) r)
      ]
    ]

-- With a granularity of less than a second, every `Record` panics, at any time and in any state.
pub record_value-panics :
    (t : RequestsBuckets) (now v : ℕ) → t.granularity < second → record_value t now v ≡ none
unfolding record_value time_to_index
record_value-panics t now v h = ground arith
