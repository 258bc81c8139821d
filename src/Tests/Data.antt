-- ===== src/Tests/Data.antt =====
-- Inputs for the tests: a deployment `web` in the namespace `ns`.
use http_add_on.Prelude.{ℕ, ◌+◌, ◌*◌, ◌/◌, Option, none, some, List, [], ◌∷◌}
use http_add_on.Prelude.Text.{Text, codes}
use http_add_on.Api.{NamespacedName, HttpScaledObject, ColdStartTimeoutFailoverRef}
use http_add_on.Queue.Float.{Float64}

-- Whole numbers in place of floats.
abbrev pub whole : Float64
whole = record {
  Carrier = ℕ;
  of_int = λ n. n;
  to_int = λ n. n;
  pow10 = λ n. 1000;
  plus = λ a b. a + b;
  times = λ a b. a * b;
  divide = λ a b. a / b;
  floor = λ a. a;
  ceil = λ a. a;
  zero = 0;
}

abbrev pub name_of : Text → NamespacedName
name_of n = record { namespace = codes "ns"; name = n }

abbrev pub failover : ColdStartTimeoutFailoverRef
failover = record { service = codes "spare"; port = 81; port_name = []; timeout_seconds = 5 }

abbrev pub object : Text → List Text → ℕ → Option ColdStartTimeoutFailoverRef → HttpScaledObject
object name hosts created failover_ref = record {
  key = name_of name;
  labels = [];
  annotations = [];
  finalizers = [];
  creation_timestamp = created;
  deletion_timestamp = none;
  spec = record {
    hosts = some hosts;
    path_prefixes = none;
    scale_target_ref = record {
      name = name;
      api_version = codes "apps/v1";
      kind = codes "Deployment";
      service = name;
      port = 80;
      port_name = [];
    };
    cold_start_timeout_failover_ref = failover_ref;
    replicas = none;
    target_pending_requests = none;
    cooldown_period = none;
    initial_cooldown_period = none;
    scaling_metric = none;
    timeouts = none;
  };
  status = record { target_workload = []; target_service = []; conditions = [] };
}

abbrev pub web : HttpScaledObject
web = object (codes "web") (codes "a.io" ∷ []) 5 (some failover)

abbrev pub rival : HttpScaledObject
rival = object (codes "rival") (codes "a.io" ∷ []) 3 none
