-- ===== src/Operator/Scales.antt =====
-- The operator's ScaledObject and the external scaler: KEDA asks the scaler about every trigger of a
-- ScaledObject, with the object's name and namespace and the trigger's metadata.
use http_add_on.Prelude.{◌≡◌, refl, false, ◌||◌, Option, some, List, [], ◌∷◌, map}
use http_add_on.Prelude.Text.{Text, text_eq}
use http_add_on.Prelude.Dict.{lookup, text_Eq}
use http_add_on.Api.{HttpScaledObject, to_string}
use http_add_on.Queue.Float.{Float64}
use http_add_on.Operator.ScaledObject.{ScaledObject, ScaleTriggers, new_scaled_object}
use http_add_on.Operator.Reconcile.{Answers, app_scaled_object}
use http_add_on.Scaler.Naming.{metric_name}
use http_add_on.Scaler.Pinger.{QueuePinger, or_zero}
use http_add_on.Scaler.Handlers.{
  ScaledObjectRef, ok, get_metrics, get_metric_spec, metric_value, target_value,
}

abbrev pub trigger_ref : ScaledObject → ScaleTriggers → ScaledObjectRef
trigger_ref so t = record {
  name = so.key.name;
  namespace = so.key.namespace;
  scaler_metadata = t.metadata;
}

abbrev pub trigger_refs : ScaledObject → List ScaledObjectRef
trigger_refs so = map (trigger_ref so) so.triggers

-- The only trigger of the ScaledObject that the operator builds for an object with a name and a
-- namespace, which the scaler's lister finds: the scaler announces the object's own metric with the
-- object's target, and reports for it the count that the interceptors keep under the object's key.
app_scaled_object-metrics :
    (f : Float64) (lister : Text → Text → Option HttpScaledObject) (pinger : QueuePinger f)
    (a : Answers) (h : HttpScaledObject)
    → (text_eq h.key.name [] || text_eq h.key.namespace []) ≡ false
    → lister h.key.namespace h.key.name ≡ some h
    → (map (get_metric_spec f lister) (trigger_refs (app_scaled_object a h))
        ≡ ok (record { metric_name = metric_name (some h.key); value = target_value h }) ∷ [])
      × (map (get_metrics f lister pinger) (trigger_refs (app_scaled_object a h))
          ≡ ok (record {
            metric_name = metric_name (some h.key);
            value =
                metric_value f lister h (or_zero f (lookup (to_string h.key) pinger.all_counts));
          })
            ∷ [])
unfolding app_scaled_object new_scaled_object get_metrics get_metric_spec lookup
app_scaled_object-metrics f lister pinger a h named found =
    (rw (found, named) refl, rw (found, named) refl)
