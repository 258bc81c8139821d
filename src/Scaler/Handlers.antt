-- ===== src/Scaler/Handlers.antt =====
-- scaler/handlers.go. The lister of HTTPScaledObjects is an argument, by namespace and name; logging
-- is left out.

pub mod Agreement
pub mod Active
use http_add_on.Prelude.{
  ℕ, ◌+◌, ◌%◌, Bool, true, false, not, ◌&&◌, ◌||◌, Option, none, some, List, [], ◌∷◌, ◌++◌, ltb,
  ◌==◌, if◌then◌else◌,
}
use http_add_on.Prelude.Text.{Text, text_eq, codes}
use http_add_on.Prelude.Word.{add64, is_neg, lt64}
use http_add_on.Prelude.Dict.{Dict, lookup, text_Eq}
use http_add_on.Api.{
  HttpScaledObject, NamespacedName, to_string, ScalingMetricSpec, RateMetricSpec,
  ConcurrencyMetricSpec,
}
use http_add_on.Queue.Float.{Float64}
use http_add_on.Queue.Counts.{Count}
use http_add_on.Scaler.Naming.{metric_name}
use http_add_on.Scaler.ParseInt.{parse_int}
use http_add_on.Scaler.Pinger.{Counts, QueuePinger, or_zero}

pub record ScaledObjectRef : Type 0 where
  pub name : Text
  pub namespace : Text
  pub scaler_metadata : Dict Text Text

-- A result, an error that is returned, or a run-time panic.
pub data Response (A : Type 0) : Type 0 where
  ok : A → Response A
  failed : Response A
  panicked : Response A

infixl 5 ◌>>=◌
abbrev pub ◌>>=◌ : {A B : Type 0} → Response A → (A → Response B) → Response B
ok a >>= f = f a
failed >>= f = failed
panicked >>= f = panicked

abbrev pub http_scaled_object_key : Text
http_scaled_object_key = codes "httpScaledObject"

abbrev pub key_interceptor_target_pending_requests : Text
key_interceptor_target_pending_requests = codes "interceptorTargetPendingRequests"

-- pkg/k8s/namespacedname.go.
abbrev pub name_from_scaled_object_ref : ScaledObjectRef → Option NamespacedName
name_from_scaled_object_ref sor = some (record { namespace = sor.namespace; name = sor.name })

abbrev pub name_from_name_and_namespace : Text → Text → Option NamespacedName
name_from_name_and_namespace name namespace =
    if text_eq name [] || text_eq namespace []
    then none
    else some (record { namespace = namespace; name = name })

-- A metric's name, with its target size or its value.
pub record Metric : Type 0 where
  pub metric_name : Text
  pub value : ℕ

abbrev pub or_failed : {A : Type 0} → Option A → Response A
or_failed none = failed
or_failed (some a) = ok a

unfoldable pub interceptor_metric_spec : Text → Text → Response Metric
interceptor_metric_spec name pending = do
  target ← or_failed (parse_int pending)
  ok (record { metric_name = name; value = target })

-- `ptr.Deref`
abbrev pub deref : Option ℕ → ℕ → ℕ
deref none d = d
deref (some n) d = n

abbrev pub concurrency_target : Option ConcurrencyMetricSpec → ℕ → ℕ
concurrency_target none d = d
concurrency_target (some c) d = c.target_value

abbrev pub rate_target : Option RateMetricSpec → ℕ → ℕ
rate_target none d = d
rate_target (some r) d = r.target_value

-- The later assignments overwrite the earlier.
abbrev pub metric_target : Option ScalingMetricSpec → ℕ → ℕ
metric_target none d = d
metric_target (some m) d = rate_target m.rate (concurrency_target m.concurrency d)

abbrev pub target_value : HttpScaledObject → ℕ
target_value h = metric_target h.spec.scaling_metric (deref h.spec.target_pending_requests 100)

abbrev pub uses_rate : Option ScalingMetricSpec → Bool
uses_rate none = false
uses_rate (some m) = elim m.rate [ none ↦ false | some r ↦ true ]

abbrev pub sor_metric_name : ScaledObjectRef → Text
sor_metric_name sor = metric_name (name_from_scaled_object_ref sor)

-- The branches of `GetMetricSpec` and of `GetMetrics`: the reference names an object, or it has the
-- interceptor's target, or it is in error.
abbrev pub by_keys :
    Option Text
    → Option Text
    → (Text → Response Metric)
    → (Text → Response Metric)
    → Response Metric
by_keys (some name) pending object interceptor = object name
by_keys none (some pending) object interceptor = interceptor pending
by_keys none none object interceptor = failed

abbrev pub by_metadata :
    ScaledObjectRef → (Text → Response Metric) → (Text → Response Metric) → Response Metric
by_metadata sor object interceptor =
    by_keys (lookup http_scaled_object_key sor.scaler_metadata)
      (lookup key_interceptor_target_pending_requests sor.scaler_metadata) object interceptor

module _ (f : Float64) (lister : Text → Text → Option HttpScaledObject) where
  -- `GetMetricSpec`, for the object that the reference names.
  abbrev pub object_metric_spec : ScaledObjectRef → Text → Response Metric
  object_metric_spec sor name = do
    httpso ← or_failed (lister sor.namespace name)
    ok (record {
      metric_name = metric_name (name_from_name_and_namespace name sor.namespace);
      value = target_value httpso;
    })

  unfoldable pub get_metric_spec : ScaledObjectRef → Response Metric
  get_metric_spec sor =
      by_metadata sor (object_metric_spec sor) (interceptor_metric_spec (sor_metric_name sor))

  -- The sum over the counts, which wraps.
  unfoldable pub total_concurrency : Counts f → ℕ
  total_concurrency [] = 0
  total_concurrency ((host, v) ∷ rest) = add64 v.concurrency (total_concurrency rest)

  unfoldable pub interceptor_metrics : QueuePinger f → Text → Response Metric
  interceptor_metrics pinger name =
      let count = total_concurrency pinger.all_counts in
      if is_neg count then failed else ok (record { metric_name = name; value = count })

  abbrev pub metric_value : HttpScaledObject → Count f.Carrier → ℕ
  metric_value h count =
      if uses_rate h.spec.scaling_metric then f.to_int (f.ceil count.rps) else count.concurrency

  -- `namespacedName.String()` of a nil pointer panics.
  abbrev pub string_of : Option NamespacedName → Response Text
  string_of none = panicked
  string_of (some n) = ok (to_string n)

  abbrev pub object_metrics : QueuePinger f → ScaledObjectRef → Text → Response Metric
  object_metrics pinger sor name = do
    httpso ← or_failed (lister sor.namespace name)
    let n = name_from_name_and_namespace name sor.namespace
    key ← string_of n
    ok (record {
      metric_name = metric_name n;
      value = metric_value httpso (or_zero f (lookup key pinger.all_counts));
    })

  unfoldable pub get_metrics : QueuePinger f → ScaledObjectRef → Response Metric
  get_metrics pinger sor =
      by_metadata sor (object_metrics pinger sor)
        (λ target. interceptor_metrics pinger (sor_metric_name sor))

  -- The list of values has one entry, so the test of its length passes.
  unfoldable pub is_active : QueuePinger f → ScaledObjectRef → Response Bool
  is_active pinger sor = do metric ← get_metrics pinger sor; ok (lt64 0 metric.value)

  pub data StreamEvent : Type 0 where
    context_done : StreamEvent
    -- a tick, with the pinger as it is then, and whether the answer can be sent
    tick : QueuePinger f → Bool → StreamEvent

  -- `StreamIsActive`: the answers that were sent, and how the loop ended.
  unfoldable pub stream_is_active :
      ScaledObjectRef → List StreamEvent → List Bool × Response (Unit {0})
  stream_is_active sor [] = ([], ok tt)
  stream_is_active sor (context_done ∷ events) = ([], ok tt)
  stream_is_active sor (tick pinger sent ∷ events) =
      let (answers, end) = stream_is_active sor events in
      elim (is_active pinger sor) [
        | failed ↦ ([], failed)
        | panicked ↦ ([], panicked)
        | ok active ↦ if sent then (active ∷ answers, end) else ([], failed)
      ]
