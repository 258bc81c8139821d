-- ===== src/Queue/Buckets/Healthy.antt =====
-- When buckets never panic: a granularity of at least a second, and at least one bucket.
use native.Mathlib.Nat.{le-div_iff_mul-le}
use http_add_on.Prelude.{
  ℕ, suc, ◌+◌, ◌-◌, ◌/◌, ◌≤◌, ◌<◌, refl, some, arith, length, length-replicate, length-set, leb,
  ◌==◌, if◌then◌else◌, get_or, ◌%◌, not,
}
use http_add_on.Prelude.Returns.{Returns, Returns-if, Returns-bind}
use http_add_on.Prelude.Word.{add64}
use http_add_on.Queue.Time.{second, truncate, sub_time, after}
use http_add_on.Queue.Buckets.{
  RequestsBuckets, bucket_count, new_requests_buckets, time_to_index, clear_buckets, reset,
  update_first_write, advance, add_value, record_value,
}
use http_add_on.Queue.Buckets.Clear.{clear_buckets-Cleared}

pub record IsHealthy (t : RequestsBuckets) : Type 0 where
  pub granular : second ≤ t.granularity
  pub sized : 0 < length t.buckets

some_seconds : (g : ℕ) → second ≤ g → 0 < g / second
some_seconds g h = omega arith

pub time_to_index_total :
    (t : RequestsBuckets) (tm : ℕ) → IsHealthy t → Returns (time_to_index t tm) (λ i. Unit {0})
unfolding time_to_index
time_to_index_total t tm h = ground (arith, some_seconds t.granularity h.granular)

clear_buckets-IsHealthy :
    (rounds i : ℕ) (t : RequestsBuckets) → IsHealthy t → IsHealthy (clear_buckets rounds i t)
clear_buckets-IsHealthy rounds i t h =
    let c = clear_buckets-Cleared (length t.buckets) rounds i t h.sized refl in
    record {
      granular = omega (arith, c.granularity, h.granular);
      sized = omega (arith, c.size, h.sized);
    }

add_value_total :
    (t : RequestsBuckets) (i v : ℕ) → IsHealthy t → Returns (add_value t i v) IsHealthy
unfolding add_value
add_value_total t i v h =
    let n = length t.buckets in
    Returns-if IsHealthy (n == 0) _ _ (λ e. absurd (ground (arith, h.sized)))
      λ _. record {
        granular = h.granular;
        sized =
            omega
              (arith, h.sized, length-set t.buckets (i % n) (add64 (get_or t.buckets (i % n) 0) v));
      }

update_first_write-IsHealthy :
    (t : RequestsBuckets) (at : ℕ) → IsHealthy t → IsHealthy (update_first_write t at)
unfolding update_first_write
update_first_write-IsHealthy t at h = ground arith

advance_total : (t : RequestsBuckets) (at i : ℕ) → IsHealthy t → Returns (advance t at i) IsHealthy
unfolding advance reset
advance_total t at i h =
    Returns-if IsHealthy (leb t.window (sub_time at t.last_write)) _ _
      (λ _. record {
        granular = h.granular;
        sized = omega (arith, h.sized, length-replicate {A = ℕ} (length t.buckets) 0);
      })
      λ _.
        Returns-bind (time_to_index t t.last_write) _ (λ j. Unit {0}) IsHealthy
          (time_to_index_total t t.last_write h)
          λ j _.
            let c = clear_buckets-IsHealthy (i - j) (suc j) t h in
            record { granular = c.granular; sized = c.sized }

pub new_requests_buckets_total :
    (window granularity : ℕ)
    → 0 < window
    → second ≤ granularity
    → Returns (new_requests_buckets window granularity) IsHealthy
unfolding new_requests_buckets
new_requests_buckets_total window granularity h k =
    let some_buckets : 0 < bucket_count window granularity =
      (le-div_iff_mul-le {k = granularity} {x = 1} {y = window + (granularity - 1)} (omega arith)).1
        (omega arith) in
    Returns-if IsHealthy (granularity == 0) _ _ (λ e. absurd (ground arith))
      λ _. record {
        granular = k;
        sized =
            omega
              (arith, some_buckets, length-replicate {A = ℕ} (bucket_count window granularity) 0);
      }

-- `Record` on healthy buckets does not panic, at any time, and keeps them healthy.
pub record_value_total :
    (t : RequestsBuckets) (now v : ℕ) → IsHealthy t → Returns (record_value t now v) IsHealthy
unfolding record_value
record_value_total t now v h =
    let at = truncate now t.granularity in
    let u = update_first_write t at in
    let hu = update_first_write-IsHealthy t at h in
    Returns-bind (time_to_index t now) _ (λ j. Unit {0}) IsHealthy (time_to_index_total t now h)
      λ i _.
        Returns-if IsHealthy (t.last_write == at) _ _ (λ _. add_value_total t i v h)
          λ _.
            Returns-if IsHealthy (not (after (at + t.window) t.last_write)) _ _ (λ _. h)
              λ _.
                Returns-bind (if after at u.last_write then advance u at i else some u) _ IsHealthy
                  IsHealthy
                  (Returns-if IsHealthy (after at u.last_write) _ _ (λ _. advance_total u at i hu)
                    (λ _. hu))
                  λ m hm. add_value_total m i v hm
