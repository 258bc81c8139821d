-- ===== src/Interceptor/Proxy/Chain.antt =====
-- What is written, counted and reported of a request that comes to a proxy server.
use http_add_on.Prelude.{
  ℕ, ◌≡◌, refl, Bool, false, ◌&&◌, ◌||◌, not, Option, none, some, List, ◌∷◌, Option-cases,
  Bool-cases, inl, inr, map, if◌then◌else◌,
}
use http_add_on.Prelude.Text.{Text}
use http_add_on.Api.{HttpScaledObject, ColdStartTimeoutFailoverRef, to_string}
use http_add_on.Routing.Key.{Request}
use http_add_on.Queue.Memory.{is_some}
use http_add_on.Interceptor.Routing.{
  Stream, serve, serve_probe, is_probe, routed, with_failover, stream_from_httpso, scale_target,
  failover_target, route_found,
}
use http_add_on.Interceptor.Forward.{
  forward, condition_wait_timeout, response_header_timeout, has_failover,
}
use http_add_on.Interceptor.Forward.Destination.{destination, optional_stream}
use http_add_on.Interceptor.Observe.{HttpRequest, Collector, samples}
use http_add_on.Interceptor.Observe.Reports.{status_of, is_probe_path, serve_http-reports}
use http_add_on.Interceptor.Proxy.{Proxy, write_status, Answer, answer_served, answer, root_handler}

-- Whether all streams that the object asks for are there.
abbrev pub has_streams : Proxy → HttpScaledObject → Bool
has_streams p h =
    is_some (
      stream_from_httpso p.services p.tls_enabled h.key.namespace
        (scale_target h.spec.scale_target_ref))
    && (not (has_failover h.spec.cold_start_timeout_failover_ref)
        || is_some (
            optional_stream p.services p.tls_enabled h.key.namespace
              h.spec.cold_start_timeout_failover_ref))

abbrev pub is_cold : Option Bool → Bool
is_cold none = false
is_cold (some b) = b

-- The status of a request that is sent to a stream, or else of one with none to be sent to.
abbrev pub sent_status : Proxy → HttpScaledObject → Option Bool → Option Stream → ℕ
sent_status p h waited none = 502
sent_status p h waited (some s) = status_of 0 (
    p.reverse_proxy
      (record {
        stream = s;
        response_header_timeout = response_header_timeout p.config h;
        cold_start = if p.config.enable_cold_start_header then some (is_cold waited) else none;
        ref_name = h.spec.scale_target_ref.name;
        ref_namespace = h.key.namespace;
      })
      (write_status p 502))

abbrev pub waited : Proxy → HttpScaledObject → Option Bool
waited p h =
    p.wait (condition_wait_timeout p.config h) h.key.namespace h.spec.scale_target_ref.service

-- The status by where the table routes the request.
abbrev pub expected : Proxy → Text → Option HttpScaledObject → ℕ
expected p user_agent none = if is_probe user_agent then serve_probe p.healthy else 404
expected p user_agent (some h) =
    if has_streams p h
    then sent_status p h (waited p h) (destination p.services p.tls_enabled h (waited p h))
    else 500

abbrev pub counted_for : Proxy → Option HttpScaledObject → Option Text
counted_for p none = none
counted_for p (some h) = if has_streams p h then some (to_string h.key) else none

abbrev IsAnswer : Proxy → Text → Option HttpScaledObject → Answer → Type 0
IsAnswer p user_agent o a =
    (status_of 0 a.calls ≡ expected p user_agent o) × (a.counted ≡ counted_for p o)

write_status-status : (p : Proxy) (code : ℕ) → status_of 0 (write_status p code) ≡ code
unfolding write_status status_of
write_status-status p code = refl

-- After the routing, with both streams there as far as they are asked for.
forwarded-IsAnswer :
    (p : Proxy) (user_agent : Text) (h : HttpScaledObject) (stream : Stream)
    (failover_ref : Option ColdStartTimeoutFailoverRef)
    → h.spec.cold_start_timeout_failover_ref ≡ failover_ref
    → stream_from_httpso p.services p.tls_enabled h.key.namespace
        (scale_target h.spec.scale_target_ref)
      ≡ some stream
    → IsAnswer p user_agent
        (some h)
        (answer_served p (with_failover p.services p.tls_enabled h stream failover_ref))
unfolding forward write_status status_of
forwarded-IsAnswer p user_agent h stream none k e = elim (Option-cases (waited p h)) [
  | inl w ↦ rw (w, e, k) (refl, refl)
  | inr (b, w) ↦ rw (w, e, k) (refl, refl)
]
forwarded-IsAnswer p user_agent h stream (some r) k e =
    elim (Option-cases
      (stream_from_httpso p.services p.tls_enabled h.key.namespace (failover_target r))) [
        | inl x ↦ rw (e, k, x) (refl, refl)
        | inr (f, x) ↦ elim (Option-cases (waited p h)) [
          | inl w ↦ rw (x, w, e, k, x) (refl, refl)
          | inr (b, w) ↦ rw (x, w, e, k, x) (refl, refl)
        ]
      ]

routed-IsAnswer :
    (p : Proxy) (user_agent : Text) (h : HttpScaledObject) (o : Option Stream)
    → stream_from_httpso p.services p.tls_enabled h.key.namespace
        (scale_target h.spec.scale_target_ref)
      ≡ o
    → IsAnswer p user_agent (some h) (answer_served p (routed p.services p.tls_enabled h o))
unfolding write_status status_of
routed-IsAnswer p user_agent h none e = rw e (refl, refl)
routed-IsAnswer p user_agent h (some s) e =
    forwarded-IsAnswer p user_agent h s h.spec.cold_start_timeout_failover_ref refl e

found-IsAnswer :
    (p : Proxy) (user_agent : Text) (o : Option HttpScaledObject)
    → IsAnswer p user_agent o (answer_served p (route_found p.services p.tls_enabled user_agent o))
unfolding write_status status_of
found-IsAnswer p user_agent none = elim (Bool-cases (is_probe user_agent)) [
  | inl e ↦ rw e (refl, refl)
  | inr e ↦ rw e (refl, refl)
]
found-IsAnswer p user_agent (some h) = routed-IsAnswer p user_agent h _ refl

answer-IsAnswer :
    (p : Proxy) (request : Option Request) (user_agent : Text)
    → IsAnswer p user_agent (p.route request) (answer p request user_agent)
unfolding answer serve
answer-IsAnswer p request user_agent = found-IsAnswer p user_agent (p.route request)

-- Of each request that comes to a proxy server, but those to the paths of the probes, every collector
-- is given one sample. For a request that the table routes nowhere it has the status of the probe
-- handler, or 404 for other user agents; 500 for an object of which a stream that it asks for is
-- missing; and else that of what the reverse proxy writes that sends to the object's service, or to
-- its failover's when the wait fails, and 502 without one. The request is counted under its object's
-- name exactly in that last case.
pub root_handler-reports :
    (p : Proxy) (collectors : List Collector) (request : Option Request) (r : HttpRequest) (now : ℕ)
    → (map samples (root_handler p collectors request r now).0
        ≡ map
            (λ c.
              if is_probe_path r
              then samples c
              else record {
                method = r.method;
                path = r.path;
                response_code = expected p r.user_agent (p.route request);
                host = r.host;
              }
                ∷ samples c)
            collectors)
      × ((answer p request r.user_agent).counted ≡ counted_for p (p.route request))
unfolding root_handler
root_handler-reports p collectors request r now =
    let a = answer p request r.user_agent in
    let (status, counted) = answer-IsAnswer p request r.user_agent in
    (rw (← status) (serve_http-reports p.log_requests collectors r now a.calls).0, counted)
