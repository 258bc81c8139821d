-- ===== src/Scaler/Fetch/Progress.antt =====
-- Which goroutine of a fetch of scaler/queue_pinger.go can go on.
use native.Mathlib.Decide.{ℕ_discrete}
use http_add_on.Prelude.{◌≡◌, ◌≢◌, inl, inr, refl, List, ◌∷◌, ◌++◌, arith, Bool-cases}
use http_add_on.Queue.Float.{Float64}
use http_add_on.Scaler.Pinger.{Counts}
use http_add_on.Scaler.Fetch.{
  counts, refused, silent, Pair, asking, sending, failed, forwarding, done, waiting, ranging, World,
  total, fetching, failing, busy, Step, answer, hand_over, receive, close, all_fetched,
  fetch_failed, finish,
}
use http_add_on.Scaler.Fetch.Sums.{total-middle, total-Found, keeping_silent}

module _ (f : Float64) where
  abbrev pub CanStep : World f → Type 0
  CanStep w = (v : World f) × Step f w v

  -- The first goroutine of a pair goes on.
  pair_step :
      (w : World f) (before : List (Pair f)) (p : Pair f) (after : List (Pair f))
      → w.pairs ≡ before ++ (p ∷ after)
      → fetching f p ≢ 0
      → keeping_silent f p ≡ 0
      → CanStep w
  pair_step w before (asking (counts c)) after e h k = (_, answer before _ _ after e refl refl)
  pair_step w before (asking refused) after e h k = (_, answer before _ _ after e refl refl)
  pair_step w before (asking silent) after e h k = absurd (omega (arith, k))
  pair_step w before (sending c) after e h k = (_, hand_over before c after e refl)
  pair_step w before failed after e h k = absurd (h refl)
  pair_step w before (forwarding c) after e h k = absurd (h refl)
  pair_step w before done after e h k = absurd (h refl)

  pub fetch_step :
      (w : World f)
      → total f (fetching f) w.pairs ≢ 0
      → total f (keeping_silent f) w.pairs ≡ 0
      → CanStep w
  fetch_step w h k =
      let r = total-Found f (fetching f) w.pairs h in
      pair_step w r.before r.pair r.after r.there r.weighs
        (omega (arith, rw r.there at k, total-middle f (keeping_silent f) r.before r.pair r.after))

  -- The loop over the shared channel takes from a pair that forwards.
  take_step :
      (w : World f) (sum : Counts f) (before : List (Pair f)) (p : Pair f) (after : List (Pair f))
      → w.main ≡ ranging sum
      → w.pairs ≡ before ++ (p ∷ after)
      → busy f p ≢ 0
      → fetching f p ≡ 0
      → failing f p ≡ 0
      → CanStep w
  take_step w sum before (asking a) after e k b h l = absurd (omega (arith, h))
  take_step w sum before (sending c) after e k b h l = absurd (omega (arith, h))
  take_step w sum before failed after e k b h l = absurd (omega (arith, l))
  take_step w sum before (forwarding c) after e k b h l = (_, receive sum before c after e k refl)
  take_step w sum before done after e k b h l = absurd (b refl)

  pub range_step :
      (w : World f) (sum : Counts f)
      → w.main ≡ ranging sum
      → total f (busy f) w.pairs ≢ 0
      → total f (fetching f) w.pairs ≡ 0
      → total f (failing f) w.pairs ≡ 0
      → CanStep w
  range_step w sum e b h l =
      let r = total-Found f (busy f) w.pairs b in
      take_step w sum r.before r.pair r.after e r.there r.weighs
        (omega (arith, rw r.there at h, total-middle f (fetching f) r.before r.pair r.after))
        (omega (arith, rw r.there at l, total-middle f (failing f) r.before r.pair r.after))

  pub close_step :
      (w : World f) (sum : Counts f)
      → w.main ≡ ranging sum
      → total f (busy f) w.pairs ≡ 0
      → CanStep w
  close_step w sum e b = elim (Bool-cases w.closed) [
    | inl closed ↦ (_, finish sum e closed refl)
    | inr opened ↦ (_, close opened b refl)
  ]

  pub group_step : (w : World f) → w.main ≡ waiting → total f (fetching f) w.pairs ≡ 0 → CanStep w
  group_step w e h = elim (ℕ_discrete (total f (failing f) w.pairs) 0) [
    | yes fine ↦ (_, all_fetched e h fine refl)
    | no errors ↦ (_, fetch_failed e h errors refl)
  ]
