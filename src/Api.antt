-- ===== src/Api.antt =====
-- operator/apis/http/v1alpha1/httpscaledobject_types.go and condition_types.go: the custom resource, with the fields of its metadata that the
-- program reads or writes. A nil pointer or slice is `none`; a number is the 64-bit pattern of its
-- value, and a time or duration counts nanoseconds.
use http_add_on.Prelude.{ℕ, Option, List, ◌++◌}
use http_add_on.Prelude.Text.{Text, codes}
use http_add_on.Prelude.Dict.{Dict}

pub record NamespacedName : Type 0 where
  pub namespace : Text
  pub name : Text

-- `NamespacedName.String`.
abbrev pub to_string : NamespacedName → Text
to_string n = n.namespace ++ codes "/" ++ n.name

pub record ScaleTargetRef : Type 0 where
  pub name : Text
  pub api_version : Text
  pub kind : Text
  pub service : Text
  pub port : ℕ
  pub port_name : Text

pub record ColdStartTimeoutFailoverRef : Type 0 where
  pub service : Text
  pub port : ℕ
  pub port_name : Text
  pub timeout_seconds : ℕ

pub record ReplicaStruct : Type 0 where
  pub min : Option ℕ
  pub max : Option ℕ

pub record ConcurrencyMetricSpec : Type 0 where
  pub target_value : ℕ

pub record RateMetricSpec : Type 0 where
  pub target_value : ℕ
  pub window : ℕ
  pub granularity : ℕ

pub record ScalingMetricSpec : Type 0 where
  pub concurrency : Option ConcurrencyMetricSpec
  pub rate : Option RateMetricSpec

pub record TimeoutsSpec : Type 0 where
  pub condition_wait : ℕ
  pub response_header : ℕ

pub record Spec : Type 0 where
  pub hosts : Option (List Text)
  pub path_prefixes : Option (List Text)
  pub scale_target_ref : ScaleTargetRef
  pub cold_start_timeout_failover_ref : Option ColdStartTimeoutFailoverRef
  pub replicas : Option ReplicaStruct
  pub target_pending_requests : Option ℕ
  pub cooldown_period : Option ℕ
  pub initial_cooldown_period : Option ℕ
  pub scaling_metric : Option ScalingMetricSpec
  pub timeouts : Option TimeoutsSpec

-- The condition reasons of condition_types.go.
pub data Reason : Type 0 where
  error_creating_app_scaled_object app_scaled_object_created terminating_resources : Reason
  app_scaled_object_terminated app_scaled_object_termination_error pending_creation : Reason
  http_scaled_object_is_ready : Reason
  no_reason : Reason

pub data ConditionStatus : Type 0 where
  status_true status_false status_unknown no_status : ConditionStatus

-- `ready` is the only named type; a condition that was not found has the empty one.
pub data CreationStatus : Type 0 where
  ready no_type : CreationStatus

pub record Condition : Type 0 where
  pub timestamp : Text
  pub type : CreationStatus
  pub status : ConditionStatus
  pub reason : Reason
  pub message : Text

pub record Status : Type 0 where
  pub target_workload : Text
  pub target_service : Text
  pub conditions : List Condition

pub record HttpScaledObject : Type 0 where
  pub key : NamespacedName
  pub labels : Dict Text Text
  pub annotations : Dict Text Text
  pub finalizers : List Text
  pub creation_timestamp : ℕ
  pub deletion_timestamp : Option ℕ
  pub spec : Spec
  pub status : Status
