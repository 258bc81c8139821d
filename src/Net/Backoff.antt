-- ===== src/Net/Backoff.antt =====
-- pkg/net/backoff.go, and the backoffs of interceptor/config/timeouts.go.
use http_add_on.Prelude.{ℕ, zero, suc, ◌+◌, ◌*◌, ◌/◌, ◌-◌, ◌%◌}
use http_add_on.Prelude.Word.{word_mod}
use http_add_on.Queue.Time.{millisecond}

-- `wait.Backoff` of k8s.io/apimachinery; the jitter in tenths.
pub record Backoff : Type 0 where
  pub duration : ℕ
  pub factor : ℕ
  pub jitter_tenths : ℕ
  pub steps : ℕ

-- `Timeouts.DefaultBackoff`, out of the connect timeout.
abbrev pub default_backoff : ℕ → Backoff
default_backoff connect = record { duration = connect; factor = 2; jitter_tenths = 5; steps = 5 }

-- The loop of so many rounds from `i` on, on `int64`s.
unfoldable pub add_steps : ℕ → ℕ → ℕ → ℕ → ℕ
add_steps zero i initial ret_ms = ret_ms
add_steps (suc rounds) i initial ret_ms =
    add_steps rounds (suc i) initial ((ret_ms + initial * i) % word_mod)

-- The duration in nanoseconds; `for i := 2; i <= numSteps; i++` has so many rounds.
unfoldable pub min_total_backoff_duration : Backoff → ℕ
min_total_backoff_duration backoff =
    let initial = backoff.duration / millisecond in
    add_steps (backoff.steps - 1) 2 initial initial * millisecond % word_mod
