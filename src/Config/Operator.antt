-- ===== src/Config/Operator.antt =====
-- operator/controllers/http/config/config.go, and what the operator's main does with the environment
-- before it starts its manager. `envconfig` is an argument, and `none` is an error, on which the
-- process exits.

pub mod Options
use http_add_on.Prelude.{
  ℕ, ◌++◌, ◌>>=◌, Option, none, some, List, [], ◌∷◌, Bool, true, false, if◌then◌else◌,
}
use http_add_on.Prelude.Text.{Text, text_eq, codes}
use http_add_on.Prelude.Decimal.{print_int}
use http_add_on.Config.Env.{Env, get, get_int32_or, resolve_os_env_duration}
use http_add_on.Config.Leader.{LeaderError, validate_leader_election_config}

pub record Interceptor : Type 0 where
  pub service_name : Text
  pub proxy_port : ℕ
  pub admin_port : ℕ

pub record ExternalScaler : Type 0 where
  pub service_name : Text
  pub port : ℕ

pub record Base : Type 0 where
  pub target_pending_requests : ℕ
  pub current_namespace : Text
  pub watch_namespace : Text

-- `HostName`
unfoldable pub host_name : ExternalScaler → Text → Text
host_name e namespace =
    e.service_name ++ (codes "." ++ (namespace ++ (codes ":" ++ print_int e.port)))

abbrev pub admin_port_string : Interceptor → Text
admin_port_string i = print_int i.admin_port

unfoldable pub new_interceptor_from_env : Env → Option Interceptor
new_interceptor_from_env env = do
  service_name ← get env (codes "KEDAHTTP_INTERCEPTOR_SERVICE")
  some (record {
    service_name = service_name;
    admin_port = get_int32_or env (codes "KEDAHTTP_INTERCEPTOR_ADMIN_PORT") 8090;
    proxy_port = get_int32_or env (codes "KEDAHTTP_INTERCEPTOR_PROXY_PORT") 8091;
  })

unfoldable pub new_external_scaler_from_env : Env → Option ExternalScaler
new_external_scaler_from_env env = do
  service_name ← get env (codes "KEDAHTTP_OPERATOR_EXTERNAL_SCALER_SERVICE")
  some (record {
    service_name = service_name;
    port = get_int32_or env (codes "KEDAHTTP_OPERATOR_EXTERNAL_SCALER_PORT") 8091;
  })

-- The options of the manager that come from the environment, with the configuration that the
-- reconciler gets.
pub record ManagerOptions : Type 0 where
  pub external_scaler_cfg : ExternalScaler
  pub base_config : Base
  pub lease_duration : Option ℕ
  pub renew_deadline : Option ℕ
  pub retry_period : Option ℕ
  pub default_namespaces : List Text

abbrev pub accepted : {A : Type 0} → Option LeaderError → A → Option A
accepted none a = some a
accepted (some err) a = none

-- An empty namespace is all of them.
abbrev pub namespaces : Text → List Text
namespaces watch_namespace = if text_eq watch_namespace [] then [] else watch_namespace ∷ []

unfoldable pub manager_options :
    Env → (Text → Option ℕ) → (Env → Option Base) → Option ManagerOptions
manager_options env parse_duration new_base_from_env = do
  external_scaler_cfg ← new_external_scaler_from_env env
  base_config ← new_base_from_env env
  lease_duration ←
      resolve_os_env_duration parse_duration env
        (codes "KEDA_HTTP_OPERATOR_LEADER_ELECTION_LEASE_DURATION")
  renew_deadline ←
      resolve_os_env_duration parse_duration env
        (codes "KEDA_HTTP_OPERATOR_LEADER_ELECTION_RENEW_DEADLINE")
  retry_period ←
      resolve_os_env_duration parse_duration env
        (codes "KEDA_HTTP_OPERATOR_LEADER_ELECTION_RETRY_PERIOD")
  accepted (validate_leader_election_config lease_duration renew_deadline retry_period) (record {
    external_scaler_cfg = external_scaler_cfg;
    base_config = base_config;
    lease_duration = lease_duration;
    renew_deadline = renew_deadline;
    retry_period = retry_period;
    default_namespaces = namespaces base_config.watch_namespace;
  })
