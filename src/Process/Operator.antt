-- ===== src/Process/Operator.antt =====
-- The main of operator/main.go, from the environment on.

pub mod Ends
use http_add_on.Prelude.{ℕ, Bool, true, false, Option, none, some, List, [], ◌∷◌, if◌then◌else◌}
use http_add_on.Prelude.Text.{Text}
use http_add_on.Config.Env.{Env}
use http_add_on.Config.Operator.{Base, ManagerOptions, manager_options}

-- What main calls once it has the options.
pub data Call : Type 0 where
  get_config : Call
  new_manager : ManagerOptions → Call
  set_up_with_manager : Call
  add_healthz_check : Call
  add_readyz_check : Call
  start : Call

abbrev pub call_then : Bool → Call → List Call × ℕ → List Call × ℕ
call_then true c rest = (c ∷ rest.0, rest.1)
call_then false c rest = (c ∷ [], 1)

-- The process exits with 1 after the first call that gives an error.
unfoldable pub run_calls : (Call → Bool) → List Call → List Call × ℕ
run_calls ok [] = ([], 0)
run_calls ok (c ∷ calls) = call_then (ok c) c (run_calls ok calls)

abbrev pub calls_of : ManagerOptions → List Call
calls_of o =
    get_config
    ∷ new_manager o
    ∷ set_up_with_manager
    ∷ add_healthz_check
    ∷ add_readyz_check
    ∷ start
    ∷ []

abbrev pub with_options : (Call → Bool) → Option ManagerOptions → List Call × ℕ
with_options ok none = ([], 1)
with_options ok (some o) = run_calls ok (calls_of o)

-- The calls that are made and the exit code.
unfoldable pub main : Env → (Text → Option ℕ) → (Env → Option Base) → (Call → Bool) → List Call × ℕ
main env parse_duration new_base_from_env ok =
    with_options ok (manager_options env parse_duration new_base_from_env)
