-- ===== src/Queue/Memory.antt =====
-- pkg/queue/queue.go: the in-memory queue counter. A method that mutates `*Memory` returns the
-- new record. `time.Now()` is an argument, and a run-time panic is `none`. `Current` is in
-- Queue/Counts.
pub mod Sound
pub mod Calls
use http_add_on.Prelude.{
  ℕ, Bool, not, ◌&&◌, ◌||◌, Option, none, some, [], ◌==◌, if◌then◌else◌, ◌>>=◌,
}
use http_add_on.Prelude.Text.{Text}
use http_add_on.Prelude.Word.{add64, sub64, is_neg}
use http_add_on.Prelude.Dict.{Dict, lookup, insert, remove, text_Eq}
use http_add_on.Queue.Buckets.{RequestsBuckets, new_requests_buckets, record_value}

pub record Memory : Type 0 where
  pub concurrent_map : Dict Text ℕ
  pub rps_map : Dict Text RequestsBuckets

unfoldable pub new_memory : Memory
new_memory = record { concurrent_map = []; rps_map = [] }

-- `_, ok := m[key]`
abbrev pub is_some {ℓ} : {A : Type ℓ} → Option A → Bool
is_some none = Bool.false
is_some (some a) = Bool.true

-- `m[key]` of a map of integers.
abbrev pub get_or_zero : Option ℕ → ℕ
get_or_zero none = 0
get_or_zero (some n) = n

-- `Record` is called through the pointer that the map gives, which is nil for a missing host.
unfoldable pub increase : Memory → Text → ℕ → ℕ → Option Memory
increase r host delta now = do
  buckets ← lookup host r.rps_map
  recorded ← record_value buckets now delta
  some (record {
    concurrent_map =
        insert host (add64 (get_or_zero (lookup host r.concurrent_map)) delta) r.concurrent_map;
    rps_map = insert host recorded r.rps_map;
  })

-- The new value, clamped to zero.
abbrev pub clamped : ℕ → ℕ → ℕ
clamped current delta = let new_val = sub64 current delta in if is_neg new_val then 0 else new_val

unfoldable pub decrease : Memory → Text → ℕ → Memory
decrease r host delta = elim (lookup host r.concurrent_map) [
  | none ↦ r
  | some current ↦ record r {
    concurrent_map = insert host (clamped current delta) r.concurrent_map;
  }
]

unfoldable pub ensure_concurrency : Memory → Text → Memory
ensure_concurrency r host =
    if is_some (lookup host r.concurrent_map)
    then r
    else record r { concurrent_map = insert host 0 r.concurrent_map }

unfoldable pub ensure_buckets : Memory → Text → ℕ → ℕ → Option Memory
ensure_buckets r host window granularity = if is_some (lookup host r.rps_map) then some r else do
  buckets ← new_requests_buckets window granularity
  some (record r { rps_map = insert host buckets r.rps_map })

unfoldable pub ensure_key : Memory → Text → ℕ → ℕ → Option Memory
ensure_key r host window granularity =
    ensure_buckets (ensure_concurrency r host) host window granularity

abbrev pub differs : RequestsBuckets → ℕ → ℕ → Bool
differs b window granularity = not (b.window == window) || not (b.granularity == granularity)

abbrev pub changed : Memory → Text → ℕ → ℕ → Option RequestsBuckets → Option Memory
changed r host window granularity none = some r
changed r host window granularity (some buckets) =
    if differs buckets window granularity
    then (do
      fresh ← new_requests_buckets window granularity
      some (record r { rps_map = insert host fresh r.rps_map }))
    else some r

-- What `UpdateBuckets` does under its own lock, after `EnsureKey` has released its lock.
unfoldable pub change_buckets : Memory → Text → ℕ → ℕ → Option Memory
change_buckets r host window granularity = changed r host window granularity (lookup host r.rps_map)

-- The two with nothing in between.
unfoldable pub update_buckets : Memory → Text → ℕ → ℕ → Option Memory
update_buckets r host window granularity = do
  ensured ← ensure_key r host window granularity
  change_buckets ensured host window granularity

unfoldable pub remove_key : Memory → Text → Memory × Bool
remove_key r host =
    let concurrent_ok = is_some (lookup host r.concurrent_map) in
    let rps_ok = is_some (lookup host r.rps_map) in
    (
      record { concurrent_map = remove host r.concurrent_map; rps_map = remove host r.rps_map },
      concurrent_ok && rps_ok,
    )
