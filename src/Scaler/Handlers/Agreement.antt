-- ===== src/Scaler/Handlers/Agreement.antt =====
-- How the answers of the external scaler fit together.
use http_add_on.Prelude.{
  ◌≡◌, refl, ◌∙◌, sym, ◌||◌, Option, none, some, [], Bool-cases, Option-cases, inl, inr,
}
use http_add_on.Prelude.Text.{Text, text_eq}
use http_add_on.Prelude.Word.{is_neg}
use http_add_on.Prelude.Dict.{lookup, text_Eq}
use http_add_on.Api.{HttpScaledObject}
use http_add_on.Queue.Float.{Float64}
use http_add_on.Scaler.Naming.{metric_name}
use http_add_on.Scaler.ParseInt.{parse_int}
use http_add_on.Scaler.Pinger.{QueuePinger}
use http_add_on.Scaler.Handlers.{
  ScaledObjectRef, Response, ok, failed, panicked, Metric, name_from_name_and_namespace,
  http_scaled_object_key, get_metric_spec, get_metrics, object_metrics, interceptor_metrics,
  total_concurrency, interceptor_metric_spec, name_from_scaled_object_ref, sor_metric_name, by_keys,
  object_metric_spec,
}

abbrev pub MetricNamed : Text → Response Metric → Type 0
MetricNamed name (ok m) = m.metric_name ≡ name
MetricNamed name failed = Unit
MetricNamed name panicked = Unit

-- The name of the metric that a reference stands for, when it stands for one.
abbrev pub name_of_reference : ScaledObjectRef → Option Text → Text
name_of_reference sor (some name) = metric_name (name_from_name_and_namespace name sor.namespace)
name_of_reference sor none = metric_name (name_from_scaled_object_ref sor)

module _ (f : Float64) (lister : Text → Text → Option HttpScaledObject) where
  by_keys_named :
      (sor : ScaledObjectRef) (o p : Option Text) (object interceptor : Text → Response Metric)
      → ((name : Text) → MetricNamed (name_of_reference sor (some name)) (object name))
      → ((target : Text) → MetricNamed (name_of_reference sor none) (interceptor target))
      → MetricNamed (name_of_reference sor o) (by_keys o p object interceptor)
  by_keys_named sor (some name) p object interceptor ho hi = ho name
  by_keys_named sor none (some target) object interceptor ho hi = hi target
  by_keys_named sor none none object interceptor ho hi = tt

  object_spec_named :
      (sor : ScaledObjectRef) (name : Text)
      → MetricNamed (name_of_reference sor (some name)) (object_metric_spec f lister sor name)
  object_spec_named sor name = elim (Option-cases (lister sor.namespace name)) [
    | inl e ↦ rw e tt
    | inr (h, e) ↦ rw e refl
  ]

  interceptor_spec_named :
      (sor : ScaledObjectRef) (target : Text)
      → MetricNamed
          (name_of_reference sor none)
          (interceptor_metric_spec (sor_metric_name sor) target)
  unfolding interceptor_metric_spec
  interceptor_spec_named sor target = elim (Option-cases (parse_int target)) [
    | inl e ↦ rw e tt
    | inr (n, e) ↦ rw e refl
  ]

  spec_named :
      (sor : ScaledObjectRef)
      → MetricNamed
          (name_of_reference sor (lookup http_scaled_object_key sor.scaler_metadata))
          (get_metric_spec f lister sor)
  unfolding get_metric_spec
  spec_named sor = by_keys_named sor _ _ _ _ (object_spec_named sor) (interceptor_spec_named sor)

  object_metrics_named :
      (pinger : QueuePinger f) (sor : ScaledObjectRef) (name : Text)
      → MetricNamed (name_of_reference sor (some name)) (object_metrics f lister pinger sor name)
  object_metrics_named pinger sor name = elim (Option-cases (lister sor.namespace name)) [
    | inl e ↦ rw e tt
    | inr (h, e) ↦ rw e (elim (Bool-cases (text_eq name [] || text_eq sor.namespace [])) [
      | inl b ↦ rw b tt
      | inr b ↦ rw b refl
    ])
  ]

  interceptor_metrics_named :
      (pinger : QueuePinger f) (name : Text)
      → MetricNamed name (interceptor_metrics f lister pinger name)
  unfolding interceptor_metrics
  interceptor_metrics_named pinger name =
      elim (Bool-cases (is_neg (total_concurrency f lister pinger.all_counts))) [
        | inl b ↦ rw b tt
        | inr b ↦ rw b refl
      ]

  metrics_named :
      (pinger : QueuePinger f) (sor : ScaledObjectRef)
      → MetricNamed
          (name_of_reference sor (lookup http_scaled_object_key sor.scaler_metadata))
          (get_metrics f lister pinger sor)
  unfolding get_metrics
  metrics_named pinger sor =
      by_keys_named sor _ _ _ _ (object_metrics_named pinger sor)
        (λ target. interceptor_metrics_named pinger (sor_metric_name sor))

  -- When both `GetMetricSpec` and `GetMetrics` answer a reference, they answer with the same metric
  -- name: the value is of the metric that was announced.
  get_metrics-get_metric_spec :
      (pinger : QueuePinger f) (sor : ScaledObjectRef) (spec value : Metric)
      → get_metric_spec f lister sor ≡ ok spec
      → get_metrics f lister pinger sor ≡ ok value
      → value.metric_name ≡ spec.metric_name
  get_metrics-get_metric_spec pinger sor spec value hs hv =
      let s = rw hs at (spec_named sor) in let v = rw hv at (metrics_named pinger sor) in v ∙ sym s
