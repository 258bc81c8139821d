-- ===== src/Interceptor/Routing.antt =====
-- interceptor/middleware/routing.go, handler/static.go and handler/probe.go, with the service cache of
-- pkg/k8s/svc_cache.go. What is written to the client is the result.
use http_add_on.Prelude.{
  ℕ, Bool, true, false, ◌&&◌, ◌||◌, Option, none, some, List, [], ◌∷◌, ◌++◌, ◌==◌, if◌then◌else◌,
  ◌>>=◌,
}
use http_add_on.Prelude.Text.{Text, text_eq, codes}
use http_add_on.Prelude.Decimal.{print_int}
use http_add_on.Api.{HttpScaledObject, ScaleTargetRef, ColdStartTimeoutFailoverRef}
use http_add_on.Routing.Key.{Request}

-- The interface `Ref`, which both references implement.
pub record Ref : Type 0 where
  pub service_name : Text
  pub port : ℕ
  pub port_name : Text

abbrev pub scale_target : ScaleTargetRef → Ref
scale_target r = record { service_name = r.service; port = r.port; port_name = r.port_name }

abbrev pub failover_target : ColdStartTimeoutFailoverRef → Ref
failover_target r = record { service_name = r.service; port = r.port; port_name = r.port_name }

pub record ServicePort : Type 0 where
  pub name : Text
  pub port : ℕ

pub record Stream : Type 0 where
  pub scheme : Text
  pub host : Text

-- A service by namespace and name, for which the ports are enough; `none` is an error.
abbrev pub ServiceCache : Type 0
ServiceCache = Text → Text → Option (List ServicePort)

-- The cache, and `url.Parse` of the library, which gives an error for what it cannot parse.
pub record Services : Type 0 where
  pub cache : ServiceCache
  pub parse_url : Text → Option Stream

-- The lister's answer, or else the API server's.
unfoldable pub service_cache_get : ServiceCache → ServiceCache → ServiceCache
service_cache_get lister api namespace name = elim (lister namespace name) [
  | some ports ↦ some ports
  | none ↦ api namespace name
]

unfoldable pub find_port : Text → List ServicePort → Option ℕ
find_port name [] = none
find_port name (p ∷ ports) = if text_eq p.name name then some p.port else find_port name ports

unfoldable pub get_port : Services → Text → Ref → Option ℕ
get_port services namespace r =
    if r.port == 0
    then (if text_eq r.port_name []
        then none
        else services.cache namespace r.service_name >>= find_port r.port_name)
    else some r.port

-- What `fmt.Sprintf` makes of the reference.
abbrev pub url_of : Text → Text → ℕ → Text
url_of scheme name port = scheme ++ (codes "://" ++ (name ++ (codes ":" ++ print_int port)))

unfoldable pub stream_from_httpso : Services → Bool → Text → Ref → Option Stream
stream_from_httpso services tls_enabled namespace r = do
  port ← get_port services namespace r
  services.parse_url (
      url_of (if tls_enabled then codes "https" else codes "http")
        (r.service_name ++ (codes "." ++ namespace)) port)

abbrev pub is_space : ℕ → Bool
is_space c = (c == b' ') || ((c == 9) || ((c == 10) || ((c == 12) || (c == 13))))

abbrev pub starts_with : Text → Text → Bool
starts_with [] s = true
starts_with (c ∷ p) [] = false
starts_with (c ∷ p) (d ∷ s) = (c == d) && starts_with p s

-- `(^|\s)word`, where `bol` says that the text's start or white space stands before.
unfoldable pub matches_word : Text → Bool → Text → Bool
matches_word word bol [] = bol && starts_with word []
matches_word word bol (c ∷ s) =
    (bol && starts_with word (c ∷ s)) || matches_word word (is_space c) s

unfoldable pub is_probe : Text → Bool
is_probe user_agent =
    matches_word (codes "kube-probe/") true user_agent
    || (matches_word (codes "GoogleHC/") true user_agent
        || matches_word (codes "ELB-HealthChecker/") true user_agent)

-- The request's context as the upstream handler finds it.
pub record Context : Type 0 where
  pub httpso : HttpScaledObject
  pub stream : Stream
  pub failover_stream : Option Stream

pub data Served : Type 0 where
  probe : Served
  -- the static handler, with its status code
  static : ℕ → Served
  upstream : Context → Served

abbrev pub failover_served : HttpScaledObject → Stream → Option Stream → Served
failover_served httpso stream none = static 500
failover_served httpso stream (some failover) =
    upstream (record { httpso = httpso; stream = stream; failover_stream = some failover })

abbrev pub with_failover :
    Services → Bool → HttpScaledObject → Stream → Option ColdStartTimeoutFailoverRef → Served
with_failover services tls_enabled httpso stream none =
    upstream (record { httpso = httpso; stream = stream; failover_stream = none })
with_failover services tls_enabled httpso stream (some r) =
    failover_served httpso stream
      (stream_from_httpso services tls_enabled httpso.key.namespace (failover_target r))

abbrev pub routed : Services → Bool → HttpScaledObject → Option Stream → Served
routed services tls_enabled httpso none = static 500
routed services tls_enabled httpso (some stream) =
    with_failover services tls_enabled httpso stream httpso.spec.cold_start_timeout_failover_ref

abbrev pub route_found : Services → Bool → Text → Option HttpScaledObject → Served
route_found services tls_enabled user_agent none = if is_probe user_agent then probe else static 404
route_found services tls_enabled user_agent (some httpso) = routed services tls_enabled httpso (
    stream_from_httpso services tls_enabled httpso.key.namespace
      (scale_target httpso.spec.scale_target_ref))

-- `ServeHTTP`; `route` is the routing table's `Route`.
unfoldable pub serve :
    Services → Bool → (Option Request → Option HttpScaledObject) → Option Request → Text → Served
serve services tls_enabled route request user_agent =
    route_found services tls_enabled user_agent (route request)

-- The probe handler: whether all health checks pass, in their order up to the first that fails.
unfoldable pub check : List Bool → Bool
check [] = true
check (passes ∷ rest) = if passes then check rest else false

abbrev pub serve_probe : Bool → ℕ
serve_probe healthy = if healthy then 200 else 503
