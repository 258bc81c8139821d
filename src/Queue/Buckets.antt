-- ===== src/Queue/Buckets.antt =====
-- pkg/queue/bucketing.go: a ring of request counts, one for each stretch of `granularity`.
-- A run-time panic is `none`. Times are at or after the Unix epoch, but for the zero time of a field
-- that has not been written.
pub mod Clear
pub mod Index
pub mod Window
pub mod Write
pub mod Fresh
pub mod Record
pub mod Healthy
use http_add_on.Prelude.{
  ℕ, zero, suc, ◌+◌, ◌-◌, ◌/◌, ◌%◌, Bool, not, ◌||◌, Option, none, some, List, ltb, leb, ◌==◌,
  if◌then◌else◌, ◌>>=◌, length, get_or, set, replicate,
}
use http_add_on.Prelude.Word.{add64, sub64}
use http_add_on.Queue.Time.{second, truncate, sub_time, after, unix}

pub record RequestsBuckets : Type 0 where
  pub buckets : List ℕ
  pub first_write : ℕ
  pub last_write : ℕ
  pub granularity : ℕ
  pub window : ℕ
  pub window_total : ℕ

-- `window / granularity` rounded up. The source computes it in floating point, which is exact for
-- windows below 2 ^ 53 ns (104 days).
abbrev pub bucket_count : ℕ → ℕ → ℕ
bucket_count window granularity = (window + (granularity - 1)) / granularity

-- With granularity 0 the quotient is not finite, and no slice has that length.
unfoldable pub new_requests_buckets : ℕ → ℕ → Option RequestsBuckets
new_requests_buckets window granularity =
    if granularity == 0
    then none
    else some (record {
      buckets = replicate (bucket_count window granularity) 0;
      first_write = 0;
      last_write = 0;
      granularity = granularity;
      window = window;
      window_total = 0;
    })

-- `isEmptyLocked`, for a truncated time.
abbrev pub is_empty_locked : RequestsBuckets → ℕ → Bool
is_empty_locked t now = ltb t.window (sub_time now t.last_write)

unfoldable pub is_empty : RequestsBuckets → ℕ → Bool
is_empty t now = is_empty_locked t (truncate now t.granularity)

-- The whole seconds of the granularity divide the Unix time: below a second that is 0, and Go
-- panics.
unfoldable pub time_to_index : RequestsBuckets → ℕ → Option ℕ
time_to_index t tm =
    if t.granularity / second == 0 then none else some (unix tm / (t.granularity / second))

-- The loop of `Record` that clears the buckets `i`, `i + 1`, … of so many rounds.
unfoldable pub clear_buckets : ℕ → ℕ → RequestsBuckets → RequestsBuckets
clear_buckets zero i t = t
clear_buckets (suc rounds) i t = clear_buckets rounds (suc i) (record t {
  window_total = sub64 t.window_total (get_or t.buckets (i % length t.buckets) 0);
  buckets = set t.buckets (i % length t.buckets) 0;
})

-- `for i := range t.buckets { t.buckets[i] = 0 }`, and the other resets beside it.
unfoldable pub reset : RequestsBuckets → ℕ → RequestsBuckets
reset t bucket_time = record t {
  first_write = bucket_time;
  buckets = replicate (length t.buckets) 0;
  window_total = 0;
}

-- The first `if` of the branch for a time inside the window.
unfoldable pub update_first_write : RequestsBuckets → ℕ → RequestsBuckets
update_first_write t bucket_time =
    if (t.first_write == 0) || after t.first_write bucket_time
    then record t { first_write = bucket_time }
    else t

-- The branch for a time after the last write.
unfoldable pub advance : RequestsBuckets → ℕ → ℕ → Option RequestsBuckets
advance t bucket_time write_idx =
    if leb t.window (sub_time bucket_time t.last_write)
    then some (record (reset t bucket_time) { last_write = bucket_time })
    else do
      last_idx ← time_to_index t t.last_write
      some (record (clear_buckets (write_idx - last_idx) (suc last_idx) t) {
        last_write = bucket_time;
      })

-- `t.buckets[writeIdx%len(t.buckets)] += value; t.windowTotal += value`
unfoldable pub add_value : RequestsBuckets → ℕ → ℕ → Option RequestsBuckets
add_value t write_idx value =
    let n = length t.buckets in
    if n == 0
    then none
    else some (record t {
      buckets = set t.buckets (write_idx % n) (add64 (get_or t.buckets (write_idx % n) 0) value);
      window_total = add64 t.window_total value;
    })

-- `Record`.
unfoldable pub record_value : RequestsBuckets → ℕ → ℕ → Option RequestsBuckets
record_value t now value = do
  let bucket_time = truncate now t.granularity
  write_idx ← time_to_index t now
  if t.last_write == bucket_time
      then add_value t write_idx value
      else if not (after (bucket_time + t.window) t.last_write)
      then some t
      else do
        let u = update_first_write t bucket_time
        moved ← (if after bucket_time u.last_write then advance u bucket_time write_idx else some u)
        add_value moved write_idx value
