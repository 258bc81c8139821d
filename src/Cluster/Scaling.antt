-- ===== src/Cluster/Scaling.antt =====
-- What KEDA is told of a workload: the operator's ScaledObject, the scaler's answers about it, the
-- fetch of the counts, and the interceptors that count.
use http_add_on.Prelude.{
  ℕ, ◌<◌, ◌≡◌, refl, ◌∙◌, false, ◌||◌, Option, some, List, [], ◌∷◌, ◌++◌, map, ltb, arith, inl, inr,
}
use http_add_on.Prelude.Text.{Text, text_eq}
use http_add_on.Prelude.Word.{int_min, lt64}
use http_add_on.Prelude.Dict.{lookup, text_Eq}
use http_add_on.Api.{HttpScaledObject, to_string}
use http_add_on.Queue.Float.{Float64}
use http_add_on.Queue.Memory.Sound.{IsSound}
use http_add_on.Queue.Rpc.{HttpResponse, Json, counts_path, new_size_handler, get_counts}
use http_add_on.Queue.Rpc.Answers.{IsFaithful}
use http_add_on.Interceptor.Counting.Balance.{World, Reach}
use http_add_on.Operator.Reconcile.{Answers, app_scaled_object}
use http_add_on.Operator.ScaledObject.{new_scaled_object}
use http_add_on.Operator.Scales.{trigger_refs}
use http_add_on.Scaler.Naming.{metric_name}
use http_add_on.Scaler.Pinger.{Counts, QueuePinger, save_counts}
use http_add_on.Scaler.Pinger.Totals.{known}
use http_add_on.Scaler.Handlers.{
  ok, get_metrics, get_metric_spec, is_active, target_value, uses_rate,
}
use http_add_on.Scaler.Fetch
use http_add_on.Scaler.Fetch.{Run, returned}
use http_add_on.Scaler.Fetch.Ends.{asked}
use http_add_on.Cluster.{in_flight_at}
use http_add_on.Cluster.Schedule.{fetch-in_flight}

module _ (f : Float64) (lister : Text → Text → Option HttpScaledObject) where
  positive : (n : ℕ) → n < int_min → lt64 0 n ≡ ltb 0 n
  positive n h = ground arith

  -- The answers about an object by its known concurrency.
  answers_by :
      (a : Answers) (h : HttpScaledObject) (pinger : QueuePinger f) (n : ℕ)
      → (text_eq h.key.name [] || text_eq h.key.namespace []) ≡ false
      → lister h.key.namespace h.key.name ≡ some h
      → uses_rate h.spec.scaling_metric ≡ false
      → known f (to_string h.key) pinger.all_counts ≡ n
      → n < int_min
      → (map (is_active f lister pinger) (trigger_refs (app_scaled_object a h)) ≡ ok (ltb 0 n) ∷ [])
        × (map (get_metrics f lister pinger) (trigger_refs (app_scaled_object a h))
            ≡ ok (record { metric_name = metric_name (some h.key); value = n }) ∷ [])
        × (map (get_metric_spec f lister) (trigger_refs (app_scaled_object a h))
            ≡ ok (record { metric_name = metric_name (some h.key); value = target_value h }) ∷ [])
  unfolding app_scaled_object new_scaled_object get_metrics get_metric_spec is_active lookup
  answers_by a h pinger n named found concurrency e small =
      rw (found, named, concurrency, e) (rw (positive n small) refl, refl, refl)

  -- When every interceptor has counted its requests, in whatever order they came and went, from the
  -- start, with no host removed, and serves its sound counter's counts: once the goroutines of the
  -- scaler's fetch can go no further, the fetch has returned counts with which KEDA is told, for the
  -- only trigger of the ScaledObject that the operator builds for an object, that its workload is
  -- active exactly if a request for the object is in flight at one of the interceptors, that the
  -- object's metric is the number of these requests, and that its target is the object's. The object
  -- has a name and a namespace, the scaler's lister finds it, it is not scaled by rate, there is at
  -- least one interceptor, and fewer than 2 ^ 63 requests are in flight.
  pub scales_by_in_flight :
      (json : Json f) (get : Text → Option HttpResponse) (worlds : Text → World)
      (clock : Text → Text → ℕ) (url : Text) (urls : List Text) {k : ℕ} {v : Fetch.World f}
      (a : Answers) (h : HttpScaledObject) (pinger : QueuePinger f) (now : ℕ)
      → IsFaithful f json
      → ((u : Text)
          → get (u ++ counts_path)
            ≡ new_size_handler f json (clock u) (worlds u).counting.queue_counter)
      → ((u : Text) → Reach (worlds u))
      → ((u : Text) → IsSound (worlds u).counting.queue_counter)
      → Run f (Fetch.start f (asked f (get_counts f json get) (url ∷ urls))) k v
      → ((u : Fetch.World f) → ¬ Fetch.Step f v u)
      → (text_eq h.key.name [] || text_eq h.key.namespace []) ≡ false
      → lister h.key.namespace h.key.name ≡ some h
      → uses_rate h.spec.scaling_metric ≡ false
      → in_flight_at f worlds (to_string h.key) (url ∷ urls) < int_min
      → (got : Counts f) × (v.main ≡ returned (some got))
        × (map
              (is_active f lister (save_counts f pinger now (some got)))
              (trigger_refs (app_scaled_object a h))
            ≡ ok (ltb 0 (in_flight_at f worlds (to_string h.key) (url ∷ urls))) ∷ [])
        × (map
              (get_metrics f lister (save_counts f pinger now (some got)))
              (trigger_refs (app_scaled_object a h))
            ≡ ok (record {
              metric_name = metric_name (some h.key);
              value = in_flight_at f worlds (to_string h.key) (url ∷ urls);
            })
              ∷ [])
        × (map (get_metric_spec f lister) (trigger_refs (app_scaled_object a h))
            ≡ ok (record { metric_name = metric_name (some h.key); value = target_value h }) ∷ [])
  unfolding save_counts
  scales_by_in_flight json get worlds clock url urls {k} {v} a h pinger now faithful serve r sound
        run stuck named found concurrency small =
      elim (fetch-in_flight f json get worlds clock (url ∷ urls) faithful serve r sound run).1 [
        | inl (u, step) ↦ absurd (stuck u step)
        | inr (got, e, told) ↦
            let n = in_flight_at f worlds (to_string h.key) (url ∷ urls) in
            let same : known f (to_string h.key) got ≡ n = told (to_string h.key) ∙ omega arith in
            let (active, metrics, specs) =
              answers_by a h (save_counts f pinger now (some got)) n named found concurrency same
                small in
            (got, e, active, metrics, specs)
      ]
