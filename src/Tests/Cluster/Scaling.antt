-- ===== src/Tests/Cluster/Scaling.antt =====
-- The way from the interceptors' requests to KEDA, at one object with one request.
use http_add_on.Prelude.{◌≡◌, refl, ap, true, Option, some, [], ◌∷◌, map, arith}
use http_add_on.Prelude.Text.{Text, codes}
use http_add_on.Api.{HttpScaledObject}
use http_add_on.Queue.Rpc.{get_counts}
use http_add_on.Operator.Reconcile.{app_scaled_object}
use http_add_on.Operator.Scales.{trigger_refs}
use http_add_on.Scaler.Naming.{metric_name}
use http_add_on.Scaler.Pinger.{Counts, QueuePinger, unknown, save_counts}
use http_add_on.Scaler.Handlers.{ok, get_metrics, get_metric_spec, is_active, target_value}
use http_add_on.Scaler.Fetch
use http_add_on.Scaler.Fetch.{
  asking, sending, forwarding, returned, total, busy, answer, hand_over, receive, close,
  all_fetched, fetch_failed, finish,
}
use http_add_on.Scaler.Fetch.Sums.{total-middle}
use http_add_on.Interceptor.Counting.Values.{in_flight}
use http_add_on.Cluster.{in_flight_at}
use http_add_on.Cluster.Scaling.{scales_by_in_flight}
use http_add_on.Tests.Data.{whole, web}
use http_add_on.Tests.Fetch.{fetched, fetch_run}
use http_add_on.Tests.Operator.{answers}
use http_add_on.Tests.Cluster.{
  json, faithful, network, network_serves, worlds, worlds_reached, worlds_sound, busy_answer,
}
use http_add_on.Tests.Queue.{now}

-- When the fetch has returned, nothing is left to do.
fetched_stuck : (c : Counts whole) (u : Fetch.World whole) → ¬ Fetch.Step whole (fetched c) u
fetched_stuck c u (answer before a p after e k s) = omega (
  arith,
  ap (total whole (busy whole)) e,
  total-middle whole (busy whole) before (asking a) after,
)
fetched_stuck c u (hand_over before d after e s) = omega (
  arith,
  ap (total whole (busy whole)) e,
  total-middle whole (busy whole) before (sending d) after,
)
fetched_stuck c u (receive sum before d after e k s) = cc
fetched_stuck c u (close e k s) = cc
fetched_stuck c u (all_fetched e k l s) = cc
fetched_stuck c u (fetch_failed e k l s) = cc
fetched_stuck c u (finish sum e k s) = cc

abbrev lister : Text → Text → Option HttpScaledObject
lister namespace name = some web

abbrev pinger : QueuePinger whole
pinger = record { all_counts = []; last_ping_time = 0; status = unknown }

scales_by_in_flight_example :
    (got : Counts whole) × ((fetched busy_answer.0).main ≡ returned (some got))
    × (map
          (is_active whole lister (save_counts whole pinger now (some got)))
          (trigger_refs (app_scaled_object answers web))
        ≡ ok true ∷ [])
    × (map
          (get_metrics whole lister (save_counts whole pinger now (some got)))
          (trigger_refs (app_scaled_object answers web))
        ≡ ok (record { metric_name = metric_name (some web.key); value = 1 }) ∷ [])
    × (map (get_metric_spec whole lister) (trigger_refs (app_scaled_object answers web))
        ≡ ok (record { metric_name = metric_name (some web.key); value = target_value web }) ∷ [])
unfolding in_flight_at in_flight http_add_on.Interceptor.Counting.Balance.start
scales_by_in_flight_example =
    scales_by_in_flight whole lister json network worlds (λ url host. now) (codes "2:9090") []
      answers web pinger now faithful network_serves worlds_reached worlds_sound
      (fetch_run (get_counts whole json network) (codes "2:9090") busy_answer.0 busy_answer.1)
      (fetched_stuck busy_answer.0) refl refl refl (omega arith)
