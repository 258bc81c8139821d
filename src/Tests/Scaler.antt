-- ===== src/Tests/Scaler.antt =====
-- Tests of the scaler.
use http_add_on.Prelude.{
  ◌≡◌, refl, false, ◌||◌, Option, none, some, [], ◌∷◌, ◌++◌, ltb, arith, if◌then◌else◌,
}
use http_add_on.Prelude.Text.{Text, codes, text_eq}
use http_add_on.Prelude.Dict.{lookup, text_Eq}
use http_add_on.Api.{HttpScaledObject, to_string}
use http_add_on.Scaler.Naming.{metric_name}
use http_add_on.Scaler.Naming.Injective.{metric_name-injective}
use http_add_on.Scaler.Pinger.{Counts, QueuePinger, active, start, fetch}
use http_add_on.Scaler.Handlers.{ScaledObjectRef, ok, is_active}
use http_add_on.Scaler.Handlers.Active.{pending, is_active-pending}
use http_add_on.Scaler.Health.{health_loop, set_serving_status, status_unknown, serving, ticked}
use http_add_on.Scaler.Health.Recent.{fetches, ticked_all, health_loop-recent}
use http_add_on.Tests.Data.{whole, web, name_of}

metric_name-injective_example : to_string (name_of (codes "w")) ≡ to_string (name_of (codes "w"))
metric_name-injective_example =
    metric_name-injective (name_of (codes "w")) (name_of (codes "w"))
      (omega arith, (omega arith, (omega arith, (omega arith, tt))))
      (omega arith, (omega arith, (omega arith, (omega arith, tt)))) refl

abbrev one : Counts whole
one = (codes "ns/web", record { concurrency = 2; rps = 1 }) ∷ []

abbrev two : Counts whole
two = (codes "ns/web", record { concurrency = 3; rps = 4 }) ∷ []

abbrev pinger : QueuePinger whole
pinger = record { all_counts = one; last_ping_time = 0; status = active }

abbrev lister : Text → Text → Option HttpScaledObject
lister namespace name = if text_eq namespace [] || text_eq name [] then none else some web

abbrev web_ref : ScaledObjectRef
web_ref = record {
  name = codes "web";
  namespace = codes "ns";
  scaler_metadata = (codes "httpScaledObject", codes "web") ∷ [];
}

abbrev interceptor_ref : ScaledObjectRef
interceptor_ref = record {
  name = codes "i";
  namespace = codes "ns";
  scaler_metadata = (codes "interceptorTargetPendingRequests", codes "7") ∷ [];
}

abbrev web_metric : Text
web_metric = metric_name (some (name_of (codes "web")))

is_active-pending_example :
    is_active whole lister pinger interceptor_ref ≡ ok (ltb 0 (pending whole lister one))
unfolding lookup pending
is_active-pending_example =
    is_active-pending whole lister pinger interceptor_ref (codes "7") refl refl (omega arith)

named :
    (namespace name : Text) (h : HttpScaledObject)
    → lister namespace name ≡ some h
    → (text_eq name [] || text_eq namespace []) ≡ false
named namespace name h e = ground arith

health_loop-recent_example :
    health_loop whole 500 (set_serving_status status_unknown) (
      ticked_all whole ((1000, pinger) ∷ [])
      ++ ticked 2000
          (start whole pinger (fetches whole ((900, none) ∷ []) ++ fetch 1400 (some two) ∷ []))
        ∷ [])
    ≡ set_serving_status serving
health_loop-recent_example =
    health_loop-recent whole 500 (set_serving_status status_unknown) ((1000, pinger) ∷ []) pinger
      ((900, none) ∷ []) 1400 2000 (some two)
