-- ===== src/Interceptor/Forward/Destination.antt =====
-- Where a request goes that the routing middleware lets pass.
use mathlib.Core.Path.{subst}
use http_add_on.Prelude.{
  ℕ, ◌≡◌, ◌≢◌, refl, sym, ap, ◌∙◌, Bool, true, false, Option, none, some, Bool-cases, Option-cases,
  inl, inr,
}
use http_add_on.Prelude.Text.{Text}
use http_add_on.Api.{HttpScaledObject, ColdStartTimeoutFailoverRef}
use http_add_on.Routing.Key.{Request}
use http_add_on.Interceptor.Routing.{
  Context, Stream, Services, Served, upstream, static, probe, serve, route_found, routed,
  with_failover, is_probe, stream_from_httpso, scale_target, failover_target,
}
use http_add_on.Queue.Memory.{is_some}
use http_add_on.Interceptor.Forward.{
  ForwardingConfig, serve_stream, has_failover, Forwarded, proxied, bad_gateway, no_stream, forward,
  after_wait, condition_wait_timeout,
}

abbrev pub optional_stream :
    Services → Bool → Text → Option ColdStartTimeoutFailoverRef → Option Stream
optional_stream services tls_enabled namespace none = none
optional_stream services tls_enabled namespace (some r) =
    stream_from_httpso services tls_enabled namespace (failover_target r)

-- A context that the routing middleware makes for an object.
pub record IsContext (services : Services) (tls_enabled : Bool) (h : HttpScaledObject) (c : Context)
    : Type 0 where
  pub httpso : c.httpso ≡ h
  pub stream :
      stream_from_httpso services tls_enabled h.key.namespace (scale_target h.spec.scale_target_ref)
      ≡ some c.stream
  pub failover :
      optional_stream services tls_enabled h.key.namespace h.spec.cold_start_timeout_failover_ref
      ≡ c.failover_stream
  -- a failover that is asked for is there
  pub there : has_failover h.spec.cold_start_timeout_failover_ref ≡ is_some c.failover_stream

abbrev pub Upstreams : Services → Bool → HttpScaledObject → Served → Type 0
Upstreams services tls_enabled h probe = Unit
Upstreams services tls_enabled h (static code) = Unit
Upstreams services tls_enabled h (upstream c) = IsContext services tls_enabled h c

failover_context :
    (services : Services) (tls_enabled : Bool) (h : HttpScaledObject) (stream : Stream)
    (o : Option ColdStartTimeoutFailoverRef)
    → h.spec.cold_start_timeout_failover_ref ≡ o
    → stream_from_httpso services tls_enabled h.key.namespace (scale_target h.spec.scale_target_ref)
      ≡ some stream
    → Upstreams services tls_enabled h (with_failover services tls_enabled h stream o)
failover_context services tls_enabled h stream none k e = record {
  httpso = refl;
  stream = e;
  failover = ap (optional_stream services tls_enabled h.key.namespace) k;
  there = ap has_failover k;
}
failover_context services tls_enabled h stream (some r) k e =
    elim (Option-cases
      (stream_from_httpso services tls_enabled h.key.namespace (failover_target r))) [
        | inl x ↦ rw x tt
        | inr (f, x) ↦ rw x (record {
          httpso = refl;
          stream = e;
          failover = ap (optional_stream services tls_enabled h.key.namespace) k ∙ x;
          there = ap has_failover k;
        })
      ]

routed_context :
    (services : Services) (tls_enabled : Bool) (h : HttpScaledObject) (o : Option Stream)
    → stream_from_httpso services tls_enabled h.key.namespace (scale_target h.spec.scale_target_ref)
      ≡ o
    → Upstreams services tls_enabled h (routed services tls_enabled h o)
routed_context services tls_enabled h none e = tt
routed_context services tls_enabled h (some s) e =
    failover_context services tls_enabled h s h.spec.cold_start_timeout_failover_ref refl e

-- The stream that a request is sent to.
abbrev pub proxied_stream : Forwarded → Option Stream
proxied_stream (proxied p) = some p.stream
proxied_stream bad_gateway = none
proxied_stream no_stream = none

-- Where an object's requests are to go after a wait: to its service, or if the wait failed to its
-- failover's, if it has one.
abbrev pub destination : Services → Bool → HttpScaledObject → Option Bool → Option Stream
destination services tls_enabled h (some cold_start) =
    stream_from_httpso services tls_enabled h.key.namespace (scale_target h.spec.scale_target_ref)
destination services tls_enabled h none =
    optional_stream services tls_enabled h.key.namespace h.spec.cold_start_timeout_failover_ref

no_failover :
    (services : Services) (tls_enabled : Bool) (n : Text) (o : Option ColdStartTimeoutFailoverRef)
    → has_failover o ≡ false
    → optional_stream services tls_enabled n o ≡ none
no_failover services tls_enabled n none e = refl
no_failover services tls_enabled n (some r) e = absurd (cc)

served_stream :
    (cfg : ForwardingConfig) (c : Context) (o : Option Stream)
    → is_some o ≡ true
    → (proxied_stream (serve_stream cfg c.httpso false o) ≡ o)
      × (serve_stream cfg c.httpso false o ≢ no_stream)
served_stream cfg c none e = absurd (cc)
served_stream cfg c (some s) e = (refl, λ x. cc)

after_wait-destination :
    (services : Services) (tls_enabled : Bool) (cfg : ForwardingConfig) (c : Context)
    (w : Option Bool)
    → IsContext services tls_enabled c.httpso c
    → (proxied_stream (after_wait cfg c w) ≡ destination services tls_enabled c.httpso w)
      × (after_wait cfg c w ≢ no_stream)
after_wait-destination services tls_enabled cfg c (some b) h = (sym h.stream, λ e. cc)
after_wait-destination services tls_enabled cfg c none h =
    elim (Bool-cases (has_failover c.httpso.spec.cold_start_timeout_failover_ref)) [
      | inr k ↦ rw k (sym (no_failover services tls_enabled _ _ k), λ e. cc)
      | inl k ↦ rw (k, h.failover) (served_stream cfg c c.failover_stream (sym h.there ∙ k))
    ]

context_of :
    (c : Context) (o : Option HttpScaledObject) (services : Services) (tls_enabled : Bool)
    (user_agent : Text)
    → route_found services tls_enabled user_agent o ≡ upstream c
    → (o ≡ some c.httpso) × IsContext services tls_enabled c.httpso c
context_of c none services tls_enabled user_agent e = elim (Bool-cases (is_probe user_agent)) [
  | inl k ↦ absurd (cc (rw k at e))
  | inr k ↦ absurd (cc (rw k at e))
]
context_of c (some h) services tls_enabled user_agent e =
    let s = routed_context services tls_enabled h _ refl in
    let k : IsContext services tls_enabled h c = rw e at s in
    (ap some (sym k.httpso), subst (λ x. IsContext services tls_enabled x c) (sym k.httpso) k)

-- A request that the routing middleware hands to the forwarding handler is for the object that the
-- table routes it to. It is sent to that object's service once the wait has found it active; when the
-- wait fails, to the service of the object's failover, and nowhere without one. It never lacks a stream.
pub serve-forward :
    (services : Services) (tls_enabled : Bool) (route : Option Request → Option HttpScaledObject)
    (request : Option Request) (user_agent : Text) (cfg : ForwardingConfig)
    (wait : ℕ → Text → Text → Option Bool) (c : Context)
    → serve services tls_enabled route request user_agent ≡ upstream c
    → (route request ≡ some c.httpso)
      × (proxied_stream (forward cfg wait c)
          ≡ destination services tls_enabled c.httpso (
              wait
                (condition_wait_timeout cfg c.httpso)
                c.httpso.key.namespace
                c.httpso.spec.scale_target_ref.service))
      × (forward cfg wait c ≢ no_stream)
unfolding serve forward
serve-forward services tls_enabled route request user_agent cfg wait c e =
    let (r, k) = context_of c (route request) services tls_enabled user_agent e in
    let (p, q) = after_wait-destination services tls_enabled cfg c _ k in (r, p, q)
