-- ===== src/Interceptor/Counting.antt =====
-- interceptor/middleware/counting.go. Each request has a goroutine that counts it: it increases the
-- counter, waits for the request's end, and decreases it.

pub mod Values
pub mod Balance
pub mod Removed
pub mod Fine
pub mod Churn
use http_add_on.Prelude.{ℕ, ◌-◌, Option, none, some, ◌>>=◌}
use http_add_on.Prelude.Text.{Text}
use http_add_on.Prelude.Word.{add64, word_mod}
use http_add_on.Prelude.Dict.{Dict, lookup, insert, text_Eq}
use http_add_on.Queue.Memory.{Memory, increase, decrease, get_or_zero}

-- The queue counter, and the metric of the pending requests by host, which is a sum of what is
-- recorded.
pub record Counting : Type 0 where
  pub queue_counter : Memory
  pub pending_requests : Dict Text ℕ

abbrev pub record_pending_request_count : Dict Text ℕ → Text → ℕ → Dict Text ℕ
record_pending_request_count d key n = insert key (add64 (get_or_zero (lookup key d)) n) d

-- `Increase` and `Decrease` return no error; `none` is a panic of the goroutine.
unfoldable pub inc : Counting → Text → ℕ → Option Counting
inc c key now = do
  queue ← increase c.queue_counter key 1 now
  some (record {
    queue_counter = queue;
    pending_requests = record_pending_request_count c.pending_requests key 1;
  })

-- `word_mod - 1` is the pattern of -1.
unfoldable pub dec : Counting → Text → Counting
dec c key = record {
  queue_counter = decrease c.queue_counter key 1;
  pending_requests = record_pending_request_count c.pending_requests key (word_mod - 1);
}
