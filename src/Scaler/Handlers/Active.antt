-- ===== src/Scaler/Handlers/Active.antt =====
-- When the scaler reports that it is active, and that it does not panic.
use http_add_on.Prelude.{
  ℕ, ◌+◌, ◌<◌, ◌≡◌, ◌≢◌, refl, false, ◌||◌, Option, none, some, [], ◌∷◌, ltb, arith, Bool-cases,
  Option-cases, inl, inr,
}
use http_add_on.Prelude.Text.{Text, text_eq}
use http_add_on.Prelude.Word.{int_min, is_neg, lt64}
use http_add_on.Prelude.Dict.{lookup, text_Eq}
use http_add_on.Api.{HttpScaledObject}
use http_add_on.Queue.Float.{Float64}
use http_add_on.Scaler.Pinger.{Counts, QueuePinger}
use http_add_on.Scaler.Handlers.{
  ScaledObjectRef, Response, ok, panicked, Metric, http_scaled_object_key,
  key_interceptor_target_pending_requests, get_metrics, object_metrics, is_active,
  interceptor_metrics, total_concurrency, sor_metric_name, by_keys,
}

module _ (f : Float64) (lister : Text → Text → Option HttpScaledObject) where
  -- The sum that does not wrap.
  unfoldable pub pending : Counts f → ℕ
  pending [] = 0
  pending ((host, v) ∷ rest) = v.concurrency + pending rest

  total-pending :
      (counts : Counts f)
      → pending counts < int_min
      → total_concurrency f lister counts ≡ pending counts
  unfolding total_concurrency pending
  total-pending [] h = refl
  total-pending ((host, v) ∷ rest) h = omega (arith, total-pending rest (omega arith))

  positive : (n : ℕ) → n < int_min → (is_neg n ≡ false) × (lt64 0 n ≡ ltb 0 n)
  positive n h = (ground arith, ground arith)

  -- For a reference to the interceptor itself, while the pending requests of all hosts together are
  -- fewer than 2 ^ 63: the scaler is active exactly if there is at least one.
  pub is_active-pending :
      (pinger : QueuePinger f) (sor : ScaledObjectRef) (target : Text)
      → lookup http_scaled_object_key sor.scaler_metadata ≡ none
      → lookup key_interceptor_target_pending_requests sor.scaler_metadata ≡ some target
      → pending pinger.all_counts < int_min
      → is_active f lister pinger sor ≡ ok (ltb 0 (pending pinger.all_counts))
  unfolding is_active get_metrics interceptor_metrics
  is_active-pending pinger sor target h h' hb =
      let p = positive (pending pinger.all_counts) hb in
      rw (h, h', total-pending pinger.all_counts hb, p.0, p.1) refl

  by_keys_runs :
      (o p : Option Text) (object interceptor : Text → Response Metric)
      → ((name : Text) → object name ≢ panicked)
      → ((target : Text) → interceptor target ≢ panicked)
      → by_keys o p object interceptor ≢ panicked
  by_keys_runs (some name) p object interceptor ho hi = ho name
  by_keys_runs none (some target) object interceptor ho hi = hi target
  by_keys_runs none none object interceptor ho hi = λ e. cc

  object_metrics_run :
      (pinger : QueuePinger f) (sor : ScaledObjectRef) (name : Text)
      → ((h : HttpScaledObject)
          → lister sor.namespace name ≡ some h
          → (text_eq name [] || text_eq sor.namespace []) ≡ false)
      → object_metrics f lister pinger sor name ≢ panicked
  object_metrics_run pinger sor name named = elim (Option-cases (lister sor.namespace name)) [
    | inl e ↦ rw e (λ x. cc)
    | inr (h, e) ↦ rw (e, named h e) (λ x. cc)
  ]

  interceptor_metrics_run :
      (pinger : QueuePinger f) (name : Text) → interceptor_metrics f lister pinger name ≢ panicked
  unfolding interceptor_metrics
  interceptor_metrics_run pinger name =
      elim (Bool-cases (is_neg (total_concurrency f lister pinger.all_counts))) [
        | inl b ↦ rw b (λ x. cc)
        | inr b ↦ rw b (λ x. cc)
      ]

  -- Where every object that the lister finds has a name and a namespace, `GetMetrics` does not panic.
  get_metrics-no_panic :
      (pinger : QueuePinger f) (sor : ScaledObjectRef)
      → ((namespace name : Text) (h : HttpScaledObject)
          → lister namespace name ≡ some h
          → (text_eq name [] || text_eq namespace []) ≡ false)
      → get_metrics f lister pinger sor ≢ panicked
  unfolding get_metrics
  get_metrics-no_panic pinger sor named =
      by_keys_runs _ _ _ _ (λ name. object_metrics_run pinger sor name (named sor.namespace name))
        (λ target. interceptor_metrics_run pinger (sor_metric_name sor))
