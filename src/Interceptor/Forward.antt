-- ===== src/Interceptor/Forward.antt =====
-- interceptor/proxy_handlers.go, and the choice of the stream in handler/upstream.go. The reverse
-- proxy and its transport are net/http's: the result is what they are given.

pub mod Destination
use http_add_on.Prelude.{ℕ, ◌*◌, ◌%◌, Bool, true, false, ◌&&◌, Option, none, some, if◌then◌else◌}
use http_add_on.Prelude.Text.{Text}
use http_add_on.Prelude.Word.{word_mod, lt64}
use http_add_on.Queue.Time.{second}
use http_add_on.Api.{HttpScaledObject, TimeoutsSpec, ColdStartTimeoutFailoverRef}
use http_add_on.Interceptor.Routing.{Context, Stream}

-- interceptor/config/timeouts.go, in nanoseconds.
pub record Timeouts : Type 0 where
  pub connect : ℕ
  pub keep_alive : ℕ
  pub response_header : ℕ
  pub workload_replicas : ℕ
  pub force_http2 : Bool
  pub max_idle_conns : ℕ
  pub idle_conn_timeout : ℕ
  pub tls_handshake_timeout : ℕ
  pub expect_continue_timeout : ℕ

pub record ForwardingConfig : Type 0 where
  pub wait_timeout : ℕ
  pub resp_header_timeout : ℕ
  pub force_attempt_http2 : Bool
  pub max_idle_conns : ℕ
  pub idle_conn_timeout : ℕ
  pub tls_handshake_timeout : ℕ
  pub expect_continue_timeout : ℕ
  pub enable_cold_start_header : Bool

unfoldable pub new_forwarding_config_from_timeouts : Timeouts → Bool → ForwardingConfig
new_forwarding_config_from_timeouts t enable_cold_start_header = record {
  wait_timeout = t.workload_replicas;
  resp_header_timeout = t.response_header;
  force_attempt_http2 = t.force_http2;
  max_idle_conns = t.max_idle_conns;
  idle_conn_timeout = t.idle_conn_timeout;
  tls_handshake_timeout = t.tls_handshake_timeout;
  expect_continue_timeout = t.expect_continue_timeout;
  enable_cold_start_header = enable_cold_start_header;
}

abbrev pub or_positive : ℕ → ℕ → ℕ
or_positive value default = if lt64 0 value then value else default

abbrev pub spec_wait : Option TimeoutsSpec → ℕ → ℕ
spec_wait none d = d
spec_wait (some t) d = or_positive t.condition_wait d

abbrev pub failover_wait : Option ColdStartTimeoutFailoverRef → ℕ → ℕ
failover_wait none d = d
failover_wait (some r) d =
    if lt64 0 r.timeout_seconds then (r.timeout_seconds * second) % word_mod else d

-- The failover's timeout stands before the object's, and that before the configuration's.
unfoldable pub condition_wait_timeout : ForwardingConfig → HttpScaledObject → ℕ
condition_wait_timeout cfg h =
    failover_wait h.spec.cold_start_timeout_failover_ref
      (spec_wait h.spec.timeouts cfg.wait_timeout)

abbrev pub spec_response : Option TimeoutsSpec → ℕ → ℕ
spec_response none d = d
spec_response (some t) d = or_positive t.response_header d

unfoldable pub response_header_timeout : ForwardingConfig → HttpScaledObject → ℕ
response_header_timeout cfg h = spec_response h.spec.timeouts cfg.resp_header_timeout

pub record Proxied : Type 0 where
  pub stream : Stream
  pub response_header_timeout : ℕ
  -- the header X-KEDA-HTTP-Cold-Start of the response
  pub cold_start : Option Bool
  -- the headers X-KEDA-HTTP-Cold-Start-Ref-Name and -Namespace of the request
  pub ref_name : Text
  pub ref_namespace : Text

pub data Forwarded : Type 0 where
  proxied : Proxied → Forwarded
  -- 502, the wait's error; 500, no stream
  bad_gateway no_stream : Forwarded

abbrev pub has_failover : Option ColdStartTimeoutFailoverRef → Bool
has_failover none = false
has_failover (some r) = true

-- The upstream handler.
abbrev pub serve_stream : ForwardingConfig → HttpScaledObject → Bool → Option Stream → Forwarded
serve_stream cfg h cold_start none = no_stream
serve_stream cfg h cold_start (some stream) = proxied (record {
  stream = stream;
  response_header_timeout = response_header_timeout cfg h;
  cold_start = if cfg.enable_cold_start_header then some cold_start else none;
  ref_name = h.spec.scale_target_ref.name;
  ref_namespace = h.key.namespace;
})

-- After the wait: its error is `none`, with which the wait gives no cold start.
abbrev pub after_wait : ForwardingConfig → Context → Option Bool → Forwarded
after_wait cfg c (some cold_start) = serve_stream cfg c.httpso cold_start (some c.stream)
after_wait cfg c none =
    if has_failover c.httpso.spec.cold_start_timeout_failover_ref
    then serve_stream cfg c.httpso false c.failover_stream
    else bad_gateway

-- `wait` is the wait function, by its timeout, namespace and service.
unfoldable pub forward : ForwardingConfig → (ℕ → Text → Text → Option Bool) → Context → Forwarded
forward cfg wait c = after_wait cfg c (
    wait (condition_wait_timeout cfg c.httpso) c.httpso.key.namespace
      c.httpso.spec.scale_target_ref.service)
