-- ===== src/Queue/Buckets/Fresh.antt =====
-- `NewRequestsBuckets` against the abstract window.
use http_add_on.Prelude.{
  ℕ, ◌-◌, ◌*◌, ◌%◌, ◌<◌, ◌≡◌, refl, sym, inl, some, arith, replicate, length-replicate,
  get_or-replicate,
}
use http_add_on.Queue.Time.{second}
use http_add_on.Queue.Buckets.{RequestsBuckets, bucket_count, new_requests_buckets}
use http_add_on.Queue.Buckets.Clear.{sum64-replicate}
use http_add_on.Queue.Buckets.Window.{empty, Represents}

-- New buckets hold the empty window.
pub new_requests_buckets-Represents :
    (gs e w : ℕ)
    → 0 < gs
    → (t : RequestsBuckets) × (new_requests_buckets w (second * gs) ≡ some t)
      × Represents gs e w t empty
unfolding new_requests_buckets
new_requests_buckets-Represents gs e w h =
    let size = bucket_count w (second * gs) in
    (
      record {
        buckets = replicate size 0;
        first_write = 0;
        last_write = 0;
        granularity = second * gs;
        window = w;
        window_total = 0;
      },
      ground (arith, h),
      record {
        granularity = refl;
        window = refl;
        first_write = omega arith;
        last_write = omega arith;
        size = length-replicate size 0;
        total = sym (sum64-replicate size);
        ordered = omega arith;
        started = inl refl;
        slots = λ b a1 a2 a3. get_or-replicate size ((b - e) % size) 0;
        future = λ b a. refl;
      },
    )
