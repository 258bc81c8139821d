-- ===== src/Process/Interceptor.antt =====
-- The main of interceptor/main.go, from the validation of its configuration on.
use http_add_on.Prelude.{ℕ, Bool, false, not, Option, none, List, map, if◌then◌else◌}
use http_add_on.Process.{Err, unless_ignored, group_wait, is_fatal}

pub record Setup : Type 0 where
  pub valid : Bool
  pub kubernetes_config : Bool
  pub kubernetes_client : Bool
  pub http_client : Bool
  pub routing_table : Bool

pub data Task : Type 0 where
  endpoints_cache routing_table admin_server metrics_server tls_proxy proxy profiling : Task

abbrev pub returns : Task → Option Err → Option Err
returns endpoints_cache err = none
returns routing_table err = unless_ignored err
returns admin_server err = unless_ignored err
returns metrics_server err = unless_ignored err
returns tls_proxy err = unless_ignored err
returns proxy err = unless_ignored err
returns profiling err = err

abbrev pub finished : Task × Option Err → Option Err
finished (task, err) = returns task err

-- Whether the goodbye has been logged when main ends or its goroutine exits. Either way the deferred
-- call of `os.Exit(1)` comes last.
abbrev pub says_goodbye : Setup → List (Task × Option Err) → Bool
says_goodbye s tasks =
    if not s.valid
    then false
    else if not s.kubernetes_config
    then false
    else if not s.kubernetes_client
    then false
    else if not s.http_client
    then false
    else if not s.routing_table
    then false
    else not (is_fatal (group_wait (map finished tasks)))

abbrev pub deferred_exit : ℕ
deferred_exit = 1

unfoldable pub main : Setup → List (Task × Option Err) → Bool × ℕ
main s tasks = (says_goodbye s tasks, deferred_exit)
