-- ===== src/Tests/Queue.antt =====
-- Tests of the queue.
use http_add_on.Prelude.{ℕ, ◌+◌, ◌*◌, ◌/◌, ◌≡◌, refl, none, some, [], ◌∷◌, arith}
use http_add_on.Prelude.Text.{codes}
use http_add_on.Prelude.Returns.{Returns, Returns-eq}
use http_add_on.Prelude.Dict.{text_Eq}
use http_add_on.Queue.Time.{second, epoch, epoch_seconds}
use http_add_on.Queue.Buckets.{RequestsBuckets, bucket_count, new_requests_buckets, record_value}
use http_add_on.Queue.Buckets.Window.{Window, empty, write, Represents}
use http_add_on.Queue.Buckets.Fresh.{new_requests_buckets-Represents}
use http_add_on.Queue.Buckets.Record.{record_value-Represents}
use http_add_on.Queue.Average.{window_average}
use http_add_on.Queue.Average.Live.{average, window_average-eq}
use http_add_on.Queue.Memory.{Memory, new_memory, ensure_key, increase}
use http_add_on.Queue.Memory.Sound.{IsSound, HasKey, new_memory-IsSound, ensure_key_total}
use http_add_on.Queue.Memory.Calls.{ensures_key, increases, IsAllowed, Reach, Reach-apply}
use http_add_on.Tests.Data.{whole}

-- A ring of three one-second buckets, and a time a hundred seconds past the epoch.
abbrev ring :
    (t : RequestsBuckets) × (new_requests_buckets (3 * second) (second * 1) ≡ some t)
    × Represents 1 epoch_seconds (3 * second) t empty
ring = new_requests_buckets-Represents 1 epoch_seconds (3 * second) (omega arith)

abbrev pub now : ℕ
now = epoch + 100 * second

abbrev slots : ℕ
slots = bucket_count (3 * second) (second * 1)

abbrev bucket : ℕ → ℕ
bucket t = t / (second * 1)

abbrev written : Window
written = write slots (bucket now) 5 empty

abbrev recorded :
    (t : RequestsBuckets) × (record_value ring.0 now 5 ≡ some t)
    × Represents 1 epoch_seconds (3 * second) t written
recorded =
    record_value-Represents 1 epoch_seconds (3 * second) (omega arith) refl (omega arith)
      (omega arith) ring.0 empty now 5 (omega arith) ring.2

-- A second write, a second after the first.
record_value-Represents_example :
    (t : RequestsBuckets) × (record_value recorded.0 (now + second) 2 ≡ some t)
    × Represents 1 epoch_seconds (3 * second) t (write slots (bucket (now + second)) 2 written)
record_value-Represents_example =
    record_value-Represents 1 epoch_seconds (3 * second) (omega arith) refl (omega arith)
      (omega arith) recorded.0 written (now + second) 2 (omega arith) recorded.2

window_average-eq_example :
    window_average whole recorded.0 (now + second)
    ≡ some (average whole slots (bucket (now + second)) written)
window_average-eq_example =
    window_average-eq 1 epoch_seconds (3 * second) (omega arith) refl (omega arith) (omega arith)
      recorded.0 written (now + second) (omega arith) recorded.2 (omega arith) whole

abbrev tiny : RequestsBuckets
tiny = record {
  buckets = 0 ∷ [];
  first_write = 0;
  last_write = 0;
  granularity = 500000000;
  window = second;
  window_total = 0;
}

abbrev coarse : RequestsBuckets
coarse = record tiny { granularity = second }

-- A counter that has the host.
abbrev pub counted :
    (m : Memory) × (ensure_key new_memory (codes "ns/web") second second ≡ some m)
    × HasKey (codes "ns/web") m
counted =
    Returns-eq (ensure_key new_memory (codes "ns/web") second second) (HasKey (codes "ns/web")) (
      ensure_key_total new_memory (codes "ns/web") second second (omega arith) (omega arith)
        new_memory-IsSound)

counted_reached : Reach counted.0
counted_reached =
    Reach.called (ensures_key (codes "ns/web") second second) Reach.new (omega arith, omega arith)
      counted.1

Reach-apply_example :
    (IsAllowed counted.0 (increases (codes "ns/web") 1 now)
      → Returns (increase counted.0 (codes "ns/web") 1 now) IsSound)
    × (¬ (IsAllowed counted.0 (increases (codes "ns/web") 1 now))
        → increase counted.0 (codes "ns/web") 1 now ≡ none)
Reach-apply_example = Reach-apply counted.0 (increases (codes "ns/web") 1 now) counted_reached tt
