-- ===== src/Tests/Process.antt =====
-- Tests of how the processes end, and of a proxy server that starts.
use http_add_on.Prelude.{
  ℕ, Option, Bool, ◌⊎◌, ◌≡◌, ◌≢◌, refl, true, false, none, some, [], ◌∷◌, map,
}
use http_add_on.Prelude.Text.{codes}
use http_add_on.Api.{HttpScaledObject}
use http_add_on.Queue.Memory.{new_memory}
use http_add_on.Routing.Radix.{Radix, dict_radix}
use http_add_on.Routing.Table.{new_table, table_route, has_synced, health_check}
use http_add_on.Routing.Table.Refresh.{World, starting, waiting, start, here}
use http_add_on.Interceptor.Routing.{check, is_probe, matches_word}
use http_add_on.Interceptor.Observe.{prometheus, samples}
use http_add_on.Interceptor.Proxy.{Proxy, answer, root_handler}
use http_add_on.Interceptor.Proxy.Unsynced.{unsynced_refuses}
use http_add_on.Process.{canceled, other, wrapping, is_ignored_err}
use http_add_on.Process.Scaler
use http_add_on.Process.Interceptor
use http_add_on.Process.Exit.{mains_end}
use http_add_on.Process.Operator
use http_add_on.Process.Server
use http_add_on.Process.Server.{Server}
use http_add_on.Process.Server.Abandons.{Abandons}
use http_add_on.Process.Operator.Ends.{Ended, main_ends}
use http_add_on.Config.Operator.{ManagerOptions, manager_options}
use http_add_on.Config.Operator.Options.{IsConfigured}
use http_add_on.Tests.Config.{operator_env, base}
use http_add_on.Tests.Interceptor.{proxy, request}

abbrev scaler_setup : Scaler.Setup
scaler_setup = record { kubernetes_config = true; kubernetes_client = true; http_client = true }

abbrev interceptor_setup : Interceptor.Setup
interceptor_setup = record {
  valid = true;
  kubernetes_config = true;
  kubernetes_client = true;
  http_client = true;
  routing_table = true;
}

-- The pinger's loop is canceled; the interceptor's admin server fails to listen.
mains_end_example :
    (Scaler.main scaler_setup (
        (Scaler.queue_pinger, some (wrapping (codes "stopping") canceled))
        ∷ (Scaler.grpc_server, none)
        ∷ [])
      ≡ 0)
    × (Interceptor.main interceptor_setup
          ((Interceptor.admin_server, some (other (codes "in use"))) ∷ [])
        ≡ (false, 1))
unfolding is_ignored_err
mains_end_example =
    mains_end scaler_setup
      ((Scaler.queue_pinger, some (wrapping (codes "stopping") canceled))
        ∷ (Scaler.grpc_server, none)
        ∷ [])
      interceptor_setup ((Interceptor.admin_server, some (other (codes "in use"))) ∷ [])
      (tt, (tt, tt)) (tt, tt)

-- An operator whose manager cannot be made.
abbrev no_manager : Operator.Call → Bool
no_manager Operator.get_config = true
no_manager (Operator.new_manager o) = false
no_manager Operator.set_up_with_manager = true
no_manager Operator.add_healthz_check = true
no_manager Operator.add_readyz_check = true
no_manager Operator.start = true

main_ends_example :
    (Operator.main operator_env (λ d. none) (λ e. some base) no_manager ≡ ([], 1))
    ⊎ ((o : ManagerOptions) × (manager_options operator_env (λ d. none) (λ e. some base) ≡ some o)
        × IsConfigured o
        × Ended no_manager
            (Operator.calls_of o)
            (Operator.main operator_env (λ d. none) (λ e. some base) no_manager))
main_ends_example = main_ends operator_env (λ d. none) (λ e. some base) no_manager

abbrev no_tls : Option ℕ
no_tls = none

-- A server that answers a request when its context ends.
abbrev busy_server : Server
busy_server = record (Server.serve_context no_tls) { in_flight = 1; context_done = true }

abbrev rt : Radix HttpScaledObject
rt = dict_radix HttpScaledObject

-- The table's memory has not been built yet.
abbrev starting_world : World rt
starting_world = record { table = new_table rt new_memory; unsignaled = 0; phase = starting }

abbrev starting_proxy : Proxy
starting_proxy = record proxy {
  route = λ r. table_route rt starting_world.table r;
  healthy = false;
}

unsynced_refuses_example :
    (starting_world.phase ≢ waiting)
    × (map samples (root_handler starting_proxy (prometheus [] ∷ []) none request 3).0
        ≡ (record {
          method = request.method;
          path = request.path;
          response_code = 404;
          host = request.host;
        }
            ∷ [])
          ∷ [])
    × ((answer starting_proxy none request.user_agent).counted ≡ none)
unfolding start has_synced health_check check new_table is_probe matches_word
unsynced_refuses_example =
    unsynced_refuses rt starting_proxy (prometheus [] ∷ []) none request 3
      (here starting_world refl) refl (record { routes = λ r. refl; probes = refl })
