-- ===== src/Net/Dial.antt =====
-- pkg/net/dial_context.go. The dialer, the sleeps of a copy of the backoff and the end of the context
-- are arguments, by the number of the attempt.
pub mod Attempts
use http_add_on.Prelude.{ℕ, zero, suc, Bool, Option, none, some, List, [], ◌∷◌, if◌then◌else◌}

-- What a dial gives.
pub data Attempt (Conn Error : Type 0) : Type 0 where
  connects : Conn → Attempt Conn Error
  fails : Error → Attempt Conn Error

-- A connection, or the context's error, or the last error of a dial, which is nil before any.
pub data Dialed (Conn Error : Type 0) : Type 0 where
  connected : Conn → Dialed Conn Error
  context_timed_out : Dialed Conn Error
  last_error : Option Error → Dialed Conn Error

module _ {Conn Error : Type 0} (dial : ℕ → Attempt Conn Error) (sleep : ℕ → ℕ)
    (timed_out : ℕ → Bool) where
  -- With the durations that it sleeps, or begins to.
  abbrev pub slept : ℕ → Dialed Conn Error × List ℕ → Dialed Conn Error × List ℕ
  slept duration (result, sleeps) = (result, duration ∷ sleeps)

  -- What follows the attempt `i`; `rest` is the rest of the loop, from the error on.
  abbrev pub after_dial :
      ℕ
      → (Option Error → Dialed Conn Error × List ℕ)
      → Attempt Conn Error
      → Dialed Conn Error × List ℕ
  after_dial i rest (connects conn) = (connected conn, [])
  after_dial i rest (fails err) =
      slept (sleep i) (if timed_out i then (context_timed_out, []) else rest (some err))

  -- The loop of so many rounds from `i` on.
  unfoldable pub dial_loop : ℕ → ℕ → Option Error → Dialed Conn Error × List ℕ
  dial_loop zero i err = (last_error err, [])
  dial_loop (suc rounds) i err = after_dial i (dial_loop rounds (suc i)) (dial i)

  -- `DialContextWithRetry`, for a backoff of so many steps.
  unfoldable pub dial_context_with_retry : ℕ → Dialed Conn Error × List ℕ
  dial_context_with_retry steps = dial_loop steps 0 none
