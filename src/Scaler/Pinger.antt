-- ===== src/Scaler/Pinger.antt =====
-- scaler/queue_pinger.go, and `EndpointsForService` of pkg/k8s/endpoints.go. The service's addresses
-- and the answers of the interceptors are arguments, `none` for an error.

pub mod Totals
use http_add_on.Prelude.{ℕ, Option, none, some, List, [], ◌∷◌, ◌++◌, ◌>>=◌, map}
use http_add_on.Prelude.Text.{Text, codes}
use http_add_on.Prelude.Word.{add64}
use http_add_on.Prelude.Dict.{Dict, lookup, insert, text_Eq}
use http_add_on.Queue.Float.{Float64}
use http_add_on.Queue.Counts.{Count}

pub record Endpoints : Type 0 where
  pub ready_addresses : List Text
  pub not_ready_addresses : List Text

-- The hosts of the URLs for the ready addresses.
unfoldable pub endpoints_for_service : Text → Option Endpoints → Option (List Text)
endpoints_for_service port endpoints = do
  e ← endpoints
  some (map (λ address. address ++ (codes ":" ++ port)) e.ready_addresses)

pub data PingerStatus : Type 0 where
  unknown active error : PingerStatus

module _ (f : Float64) where
  abbrev pub Counts : Type 0
  Counts = Dict Text (Count f.Carrier)

  pub record QueuePinger : Type 0 where
    pub all_counts : Counts
    pub last_ping_time : ℕ
    pub status : PingerStatus

  unfoldable pub new_queue_pinger : QueuePinger
  new_queue_pinger = record { all_counts = []; last_ping_time = 0; status = unknown }

  -- The count of a host, zero for a host that is not there.
  abbrev pub or_zero : Option (Count f.Carrier) → Count f.Carrier
  or_zero none = record { concurrency = 0; rps = f.zero }
  or_zero (some c) = c

  -- The loop over the counts of one endpoint.
  unfoldable pub add_counts : Counts → Counts → Counts
  add_counts total [] = total
  add_counts total ((host, val) ∷ rest) =
      let c = or_zero (lookup host total) in
      add_counts
        (insert host
          (record { concurrency = add64 c.concurrency val.concurrency; rps = f.plus c.rps val.rps })
          total)
        rest

  -- The loop over the channel, in the order in which the endpoints' counts arrive.
  unfoldable pub add_all : Counts → List Counts → Counts
  add_all total [] = total
  add_all total (counts ∷ rest) = add_all (add_counts total counts) rest

  -- All requests of the group; the first error ends it.
  unfoldable pub get_all : (Text → Option Counts) → List Text → Option (List Counts)
  get_all get_counts [] = some []
  get_all get_counts (url ∷ urls) = do
    counts ← get_counts url
    rest ← get_all get_counts urls
    some (counts ∷ rest)

  -- `arrival` puts the counts in the order in which they arrive.
  unfoldable pub fetch_counts :
      Text → Option Endpoints → (Text → Option Counts) → (List Counts → List Counts) → Option Counts
  fetch_counts port endpoints get_counts arrival = do
    urls ← endpoints_for_service port endpoints
    some_urls ← (elim urls [ [] ↦ none | u ∷ us ↦ some (u ∷ us) ])
    fetched ← get_all get_counts some_urls
    some (add_all [] (arrival fetched))

  -- What a fetch leaves: an error keeps the counts that were there.
  unfoldable pub save_counts : QueuePinger → ℕ → Option Counts → QueuePinger
  save_counts q now none = record q { status = error }
  save_counts q now (some counts) = record {
    status = active;
    all_counts = counts;
    last_ping_time = now;
  }

  pub data PingerEvent : Type 0 where
    context_done : PingerEvent
    -- a tick, or a change of the interceptors' endpoints: the time, and what the fetch gives
    fetch : ℕ → Option Counts → PingerEvent

  -- The loop of `start`: it ends when the context is done.
  unfoldable pub start : QueuePinger → List PingerEvent → QueuePinger
  start q [] = q
  start q (context_done ∷ events) = record q { status = error }
  start q (fetch now counts ∷ events) = start (save_counts q now counts) events
