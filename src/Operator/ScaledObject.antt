-- ===== src/Operator/ScaledObject.antt =====
-- pkg/k8s/scaledobject.go and the host name of operator/controllers/http/config/config.go. The
-- ScaledObject is KEDA's resource: its fields are those that the operator sets.
use http_add_on.Prelude.{ℕ, Bool, true, Option, some, List, [], ◌∷◌}
use http_add_on.Prelude.Text.{Text, codes}
use http_add_on.Prelude.Dict.{Dict}
use http_add_on.Api.{NamespacedName, ScaleTargetRef}

pub record ScaleTarget : Type 0 where
  pub api_version : Text
  pub kind : Text
  pub name : Text

pub record ScaleTriggers : Type 0 where
  pub type : Text
  pub metadata : Dict Text Text

pub record OwnerReference : Type 0 where
  pub kind : Text
  pub name : Text

pub record ScaledObject : Type 0 where
  pub key : NamespacedName
  pub labels : Dict Text Text
  pub annotations : Dict Text Text
  pub owner_references : List OwnerReference
  pub scale_target_ref : ScaleTarget
  pub polling_interval : Option ℕ
  pub cooldown_period : Option ℕ
  pub initial_cooldown_period : Option ℕ
  pub min_replica_count : Option ℕ
  pub max_replica_count : Option ℕ
  pub restore_to_original_replica_count : Bool
  pub triggers : List ScaleTriggers

unfoldable pub new_scaled_object :
    NamespacedName
    → Dict Text Text
    → Dict Text Text
    → ScaleTargetRef
    → Text
    → Option ℕ
    → Option ℕ
    → Option ℕ
    → Option ℕ
    → ScaledObject
new_scaled_object key labels annotations workload scaler_address min max cooldown initial = record {
  key = key;
  labels = labels;
  annotations = annotations;
  owner_references = [];
  scale_target_ref = record {
    api_version = workload.api_version;
    kind = workload.kind;
    name = workload.name;
  };
  polling_interval = some 15;
  cooldown_period = cooldown;
  initial_cooldown_period = initial;
  min_replica_count = min;
  max_replica_count = max;
  restore_to_original_replica_count = true;
  triggers =
      record {
        type = codes "external-push";
        metadata =
            (codes "scalerAddress", scaler_address) ∷ (codes "httpScaledObject", key.name) ∷ [];
      }
      ∷ [];
}
