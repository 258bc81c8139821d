-- ===== src/Process.antt =====
-- The processes' errors: pkg/util/errors.go, and how the mains of interceptor/ and scaler/ run their
-- parts in a group of golang.org/x/sync/errgroup, whose `Wait` gives the first error that is not nil.

pub mod Scaler
pub mod Interceptor
pub mod Operator
pub mod Server
pub mod Exit
use http_add_on.Prelude.{Bool, true, false, Option, none, some, List, [], ◌∷◌, if◌then◌else◌}
use http_add_on.Prelude.Text.{Text}

-- An error that is no sentinel has its message, and one that wraps another its own.
pub data Err : Type 0 where
  canceled deadline_exceeded server_closed : Err
  other : Text → Err
  wrapping : Text → Err → Err

-- The sentinels of `ignoredErrs`, with `none` for nil.
pub data Sentinel : Type 0 where
  context_canceled err_server_closed : Sentinel

-- `errors.Is`, which unwraps.
abbrev pub is_sentinel : Err → Sentinel → Bool
is_sentinel canceled context_canceled = true
is_sentinel canceled err_server_closed = false
is_sentinel deadline_exceeded s = false
is_sentinel server_closed context_canceled = false
is_sentinel server_closed err_server_closed = true
is_sentinel (other message) s = false
is_sentinel (wrapping message e) s = is_sentinel e s

abbrev pub errors_is : Option Err → Option Sentinel → Bool
errors_is none none = true
errors_is none (some s) = false
errors_is (some e) none = false
errors_is (some e) (some s) = is_sentinel e s

abbrev pub ignored_errs : List (Option Sentinel)
ignored_errs = none ∷ some context_canceled ∷ some err_server_closed ∷ []

unfoldable pub is_any : Option Err → List (Option Sentinel) → Bool
is_any err [] = false
is_any err (ignored ∷ rest) = if errors_is err ignored then true else is_any err rest

unfoldable pub is_ignored_err : Option Err → Bool
unfolding is_any
is_ignored_err err = is_any err ignored_errs

-- What a function of the group returns for the error of its part.
abbrev pub unless_ignored : Option Err → Option Err
unless_ignored err = if is_ignored_err err then none else err

-- `Wait`, for the results in the order in which the functions return.
unfoldable pub group_wait : List (Option Err) → Option Err
group_wait [] = none
group_wait (none ∷ rest) = group_wait rest
group_wait (some e ∷ rest) = some e

-- The test of the mains after `Wait`: `err != nil && !errors.Is(err, context.Canceled)`.
abbrev pub is_fatal : Option Err → Bool
is_fatal none = false
is_fatal (some e) = if is_sentinel e context_canceled then false else true
