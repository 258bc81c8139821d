-- ===== src/Tests/Config.antt =====
-- Tests of the configuration, of dialing and of the endpoints.
use http_add_on.Prelude.{
  ℕ, ◌*◌, ◌^◌, ◌==◌, ◌≤◌, ◌≡◌, ◌↔◌, refl, true, false, none, some, List, [], ◌∷◌, arith,
  if◌then◌else◌,
}
use http_add_on.Prelude.Text.{Text, codes, text_eq}
use http_add_on.Prelude.Decimal.{print_int}
use http_add_on.Config.Env.{Env, get_int32_or}
use http_add_on.Config.Env.Numbers.{get_int32_or-print_int}
use http_add_on.Config.Leader.{validate_leader_election_config}
use http_add_on.Config.Serving.{Serving}
use http_add_on.Prelude.Returns.{Returns}
use http_add_on.Queue.Time.{second}
use http_add_on.Config.Env.{get, resolve_os_env_duration}
use http_add_on.Config.Operator.{Base, manager_options, new_external_scaler_from_env}
use http_add_on.Net.Backoff.{default_backoff, min_total_backoff_duration}
use http_add_on.Net.Dial.{Attempt, connects, fails, dial_context_with_retry}
use http_add_on.Net.Dial.Attempts.{sum, min_total_backoff_duration-dial_context_with_retry}
use http_add_on.Interceptor.Wait.{Endpoint, ready, forward_wait, workload_active_endpoints}
use http_add_on.K8s.Addresses.{extract_addresses}
use http_add_on.K8s.Addresses.Once.{IsOf, extract_addresses-IsOf}
use http_add_on.K8s.EndpointsCache.{EndpointSlice, Informed, adds, updates, broadcasts, watch, seen}
use http_add_on.K8s.EndpointsCache.Waiting.{SomeActive, forward_wait-SomeActive}

abbrev port : Text
port = codes "KEDAHTTP_OPERATOR_EXTERNAL_SCALER_PORT"

abbrev env : Env
env name = if text_eq name port then some (print_int 9090) else none

get_int32_or-print_int_example : get_int32_or env port 8091 ≡ 9090
get_int32_or-print_int_example = get_int32_or-print_int env port (some 9090) 8091 (omega arith) refl

-- The environment of an operator that sets only what it has to.
abbrev pub operator_env : Env
operator_env name =
    if text_eq name (codes "KEDAHTTP_OPERATOR_EXTERNAL_SCALER_SERVICE")
    then some (codes "scaler")
    else none

abbrev pub base : Base
base = record { target_pending_requests = 100; current_namespace = []; watch_namespace = [] }

-- That operator does start.
starts : Returns (manager_options operator_env (λ d. none) (λ e. some base)) (λ o. Unit {0})
unfolding manager_options new_external_scaler_from_env get resolve_os_env_duration
    validate_leader_election_config
starts = tt

abbrev deprecated : Env
deprecated name =
    if text_eq name (codes "KEDA_HTTP_DEPLOYMENT_CACHE_POLLING_INTERVAL_MS")
    then some (codes "300")
    else none

abbrev serving : Serving
serving = record { deployment_cache_poll_interval_ms = 300; endpoints_cache_poll_interval_ms = 250 }

abbrev replaced : Serving
replaced = record { deployment_cache_poll_interval_ms = 0; endpoints_cache_poll_interval_ms = 300 }

abbrev dials : ℕ → Attempt ℕ ℕ
dials n = if n == 2 then connects 7 else fails n

min_total_backoff_duration-dial_context_with_retry_example :
    min_total_backoff_duration (default_backoff second)
    ≤ sum (dial_context_with_retry {Conn = ℕ} fails (λ i. second * 2 ^ i) (λ i. false) 5).1
min_total_backoff_duration-dial_context_with_retry_example =
    min_total_backoff_duration-dial_context_with_retry {Conn = ℕ} fails (λ i. second * 2 ^ i)
      (λ i. false) (default_backoff second) 4 refl (λ j. omega arith) λ j h. ((j, refl), refl)

abbrev pod : Endpoint
pod = record { ready = none; addresses = codes "10.0.0.1" ∷ [] }

abbrev both_slices : List (List Endpoint)
both_slices = (pod ∷ []) ∷ (record pod { ready = some false } ∷ pod ∷ []) ∷ []

extract_addresses-IsOf_example : IsOf both_slices (extract_addresses both_slices)
extract_addresses-IsOf_example = extract_addresses-IsOf both_slices

abbrev idle_slice : EndpointSlice
idle_slice = record { namespace = codes "ns"; service_name = codes "web"; endpoints = [] }

abbrev informed : List Informed
informed =
    adds none ∷ updates (some idle_slice) (some (record idle_slice { endpoints = pod ∷ [] })) ∷ []

forward_wait-SomeActive_example :
    (forward_wait true (some []) (seen (watch (codes "ns") (codes "web") (broadcasts informed)))
      ≡ ready true)
    ↔ SomeActive (codes "ns") (codes "web") informed
unfolding http_add_on.K8s.EndpointsCache.get workload_active_endpoints
forward_wait-SomeActive_example =
    forward_wait-SomeActive (λ ns name. some (idle_slice ∷ [])) (codes "ns") (codes "web")
      idle_slice informed refl refl
