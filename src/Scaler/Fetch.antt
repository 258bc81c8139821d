-- ===== src/Scaler/Fetch.antt =====
-- The goroutines of `fetchCounts` in scaler/queue_pinger.go. Each interceptor has two: one of the
-- group, which asks it and sends the counts over a private channel, and one that forwards them to the
-- channel that all share. Another closes that channel when all have forwarded. No channel has a buffer.

pub mod Sums
pub mod Invariant
pub mod Cost
pub mod Progress
pub mod Ends
pub mod Silent
use http_add_on.Prelude.{
  ℕ, suc, ◌+◌, ◌≡◌, ◌≢◌, Bool, true, false, Option, none, some, List, [], ◌∷◌, ◌++◌, map,
}
use http_add_on.Queue.Float.{Float64}
use http_add_on.Scaler.Pinger.{Counts, add_counts}

module _ (f : Float64) where
  -- What an interceptor will answer: `GetCounts` returns counts or an error, or never returns.
  pub data Answer : Type 0 where
    counts : Counts f → Answer
    refused : Answer
    silent : Answer

  -- The two goroutines of an interceptor.
  pub data Pair : Type 0 where
    -- the one asks, the other waits for it
    asking : Answer → Pair
    -- the one has the counts and is about to send them
    sending : Counts f → Pair
    -- the one has returned its error, the other waits
    failed : Pair
    -- the one has returned, the other is about to send
    forwarding : Counts f → Pair
    -- both have returned
    done : Pair

  pub data Main : Type 0 where
    -- in `fetchGrp.Wait`
    waiting : Main
    -- in the loop over the shared channel, with the counts so far
    ranging : Counts f → Main
    returned : Option (Counts f) → Main

  pub record World : Type 0 where
    pub pairs : List Pair
    -- the shared channel
    pub closed : Bool
    pub main : Main

  -- With no interceptor an error is returned at once: no goroutine is started, and no channel is open.
  unfoldable pub start : List Answer → World
  start [] = record { pairs = []; closed = true; main = returned none }
  start (a ∷ answers) = record { pairs = map asking (a ∷ answers); closed = false; main = waiting }

  -- What the first goroutine does with an answer.
  abbrev pub answered : Answer → Option Pair
  answered (counts c) = some (sending c)
  answered refused = some failed
  answered silent = none

  -- How many pairs count, by a weight.
  abbrev pub total : (Pair → ℕ) → List Pair → ℕ
  total weight [] = 0
  total weight (p ∷ pairs) = weight p + total weight pairs

  -- The first goroutine has not returned.
  abbrev pub fetching : Pair → ℕ
  fetching (asking a) = 1
  fetching (sending c) = 1
  fetching failed = 0
  fetching (forwarding c) = 0
  fetching done = 0

  abbrev pub failing : Pair → ℕ
  failing (asking a) = 0
  failing (sending c) = 0
  failing failed = 1
  failing (forwarding c) = 0
  failing done = 0

  -- The second goroutine has not returned.
  abbrev pub busy : Pair → ℕ
  busy (asking a) = 1
  busy (sending c) = 1
  busy failed = 1
  busy (forwarding c) = 1
  busy done = 0

  pub data Step (w v : World) : Type 0 where
    answer :
        (before : List Pair) (a : Answer) (p : Pair) (after : List Pair)
        → w.pairs ≡ before ++ (asking a ∷ after)
        → answered a ≡ some p
        → v ≡ record w { pairs = before ++ (p ∷ after) }
        → Step w v
    -- over the private channel
    hand_over :
        (before : List Pair) (c : Counts f) (after : List Pair)
        → w.pairs ≡ before ++ (sending c ∷ after)
        → v ≡ record w { pairs = before ++ (forwarding c ∷ after) }
        → Step w v
    -- over the shared one
    receive :
        (sum : Counts f) (before : List Pair) (c : Counts f) (after : List Pair)
        → w.main ≡ ranging sum
        → w.pairs ≡ before ++ (forwarding c ∷ after)
        → v ≡ record w { pairs = before ++ (done ∷ after); main = ranging (add_counts f sum c) }
        → Step w v
    close : w.closed ≡ false → total busy w.pairs ≡ 0 → v ≡ record w { closed = true } → Step w v
    -- the group is done, without an error or with one
    all_fetched :
        w.main ≡ waiting
        → total fetching w.pairs ≡ 0
        → total failing w.pairs ≡ 0
        → v ≡ record w { main = ranging [] }
        → Step w v
    fetch_failed :
        w.main ≡ waiting
        → total fetching w.pairs ≡ 0
        → total failing w.pairs ≢ 0
        → v ≡ record w { main = returned none }
        → Step w v
    -- the shared channel is closed
    finish :
        (sum : Counts f)
        → w.main ≡ ranging sum
        → w.closed ≡ true
        → v ≡ record w { main = returned (some sum) }
        → Step w v

  -- A run of so many steps, in any order that the scheduler takes.
  pub data Run (s : World) : ℕ → World → Type 0 where
    here : (w : World) → w ≡ s → Run s 0 w
    next : {k : ℕ} {w v : World} → Run s k w → Step w v → Run s (suc k) v
