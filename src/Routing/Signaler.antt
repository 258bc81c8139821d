-- ===== src/Routing/Signaler.antt =====
-- pkg/util/signaler.go: a channel of capacity 1, which holds a signal or none.
use http_add_on.Prelude.{Bool, true, false}

-- What a wait sees: a signal, or its context done.
pub data Wait : Type 0 where
  signaled : Wait
  context_done : Wait
  -- it still waits
  blocked : Wait

unfoldable pub new_signaler : Bool
new_signaler = false

-- `Signal` does not block: a signal that nobody has taken yet stands for the new one too.
unfoldable pub signal : Bool → Bool
signal s = true

-- `Wait`, with the state of the context; where both channels are ready the choice is Go's, and
-- `prefer_signal` makes it.
unfoldable pub wait : Bool → Bool → Bool → Bool × Wait
wait prefer_signal true false = (false, signaled)
wait prefer_signal false true = (false, context_done)
wait prefer_signal false false = (false, blocked)
wait true true true = (false, signaled)
wait false true true = (true, context_done)
