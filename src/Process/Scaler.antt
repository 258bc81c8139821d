-- ===== src/Process/Scaler.antt =====
-- The main of scaler/main.go, from its configuration on.
use http_add_on.Prelude.{ℕ, Bool, not, Option, none, List, map, if◌then◌else◌}
use http_add_on.Process.{Err, unless_ignored, group_wait, is_fatal}

-- What must be made before the group: whether each is, without an error.
pub record Setup : Type 0 where
  pub kubernetes_config : Bool
  pub kubernetes_client : Bool
  pub http_client : Bool

pub data Task : Type 0 where
  endpoints_informer httpso_informer queue_pinger profiling grpc_server : Task

-- The functions of the group, by the error of what they call.
abbrev pub returns : Task → Option Err → Option Err
returns endpoints_informer err = none
returns httpso_informer err = none
returns queue_pinger err = unless_ignored err
returns profiling err = err
returns grpc_server err = unless_ignored err

abbrev pub finished : Task × Option Err → Option Err
finished (task, err) = returns task err

-- The exit code. The tasks are in the order in which their functions return.
unfoldable pub main : Setup → List (Task × Option Err) → ℕ
main s tasks =
    if not s.kubernetes_config
    then 1
    else if not s.kubernetes_client
    then 1
    else if not s.http_client
    then 1
    else if is_fatal (group_wait (map finished tasks))
    then 1
    else 0
