-- ===== src/Scaler/Health.antt =====
-- The health checks of scaler/main.go: the goroutine in `startGrpcServer` that sets the status of the
-- scaler's gRPC services `liveness` and `readiness`.

pub mod Recent
use http_add_on.Prelude.{ℕ, ◌+◌, ◌*◌, ◌∷◌, List, [], if◌then◌else◌}
use http_add_on.Queue.Float.{Float64}
use http_add_on.Queue.Time.{after}
use http_add_on.Scaler.Pinger.{QueuePinger, PingerStatus, unknown, active, error}

-- `HealthCheckResponse_ServingStatus` of gRPC, in the order of its numbers.
pub data ServingStatus : Type 0 where
  status_unknown serving not_serving service_unknown : ServingStatus

-- The conversion keeps the number.
abbrev pub serving_status : PingerStatus → ServingStatus
serving_status unknown = status_unknown
serving_status active = serving
serving_status error = not_serving

pub record HealthServer : Type 0 where
  pub liveness : ServingStatus
  pub readiness : ServingStatus

abbrev pub set_serving_status : ServingStatus → HealthServer
set_serving_status s = record { liveness = s; readiness = s }

module _ (f : Float64) where
  -- One tick of the loop. The doubled duration is exact below 2 ^ 62 ns.
  unfoldable pub health_tick : ℕ → ℕ → QueuePinger f → HealthServer
  health_tick queue_tick_duration now pinger =
      if after now (pinger.last_ping_time + queue_tick_duration * 2)
      then set_serving_status not_serving
      else set_serving_status (serving_status pinger.status)

  pub data HealthEvent : Type 0 where
    context_done : HealthEvent
    -- the time, and the pinger as it is then
    ticked : ℕ → QueuePinger f → HealthEvent

  -- The loop, up to the end of the context or of what is looked at.
  unfoldable pub health_loop : ℕ → HealthServer → List HealthEvent → HealthServer
  health_loop d hs [] = hs
  health_loop d hs (context_done ∷ events) = set_serving_status not_serving
  health_loop d hs (ticked now pinger ∷ events) = health_loop d (health_tick d now pinger) events
