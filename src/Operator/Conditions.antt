-- ===== src/Operator/Conditions.antt =====
-- operator/controllers/http/condition_provider.go, operator/apis/http/v1alpha1/condition_types.go and
-- the condition predicate of operator/controllers/util/predicate.go. No conditions are a nil slice.

pub mod Ready
use http_add_on.Prelude.{
  Bool, true, false, not, ◌&&◌, Option, none, some, List, [], ◌∷◌, ◌++◌, if◌then◌else◌,
}
use http_add_on.Prelude.Text.{Text, codes}
use http_add_on.Api.{
  HttpScaledObject, Condition, ConditionStatus, CreationStatus, Reason, Status,
  error_creating_app_scaled_object, app_scaled_object_created, terminating_resources,
  app_scaled_object_terminated, app_scaled_object_termination_error, pending_creation,
  http_scaled_object_is_ready, no_reason, status_true, status_false, status_unknown, no_status,
  ready, no_type,
}

abbrev pub reason_eq : Reason → Reason → Bool
reason_eq error_creating_app_scaled_object error_creating_app_scaled_object = true
reason_eq app_scaled_object_created app_scaled_object_created = true
reason_eq terminating_resources terminating_resources = true
reason_eq app_scaled_object_terminated app_scaled_object_terminated = true
reason_eq app_scaled_object_termination_error app_scaled_object_termination_error = true
reason_eq pending_creation pending_creation = true
reason_eq http_scaled_object_is_ready http_scaled_object_is_ready = true
reason_eq no_reason no_reason = true
reason_eq _ _ = false

-- The loop, with the conditions that it leaves and whether it found the reason.
unfoldable pub replace_condition : Condition → List Condition → List Condition × Bool
replace_condition c [] = ([], false)
replace_condition c (d ∷ rest) =
    let (replaced, found) = replace_condition c rest in
    if reason_eq d.reason c.reason then (c ∷ replaced, true) else (d ∷ replaced, found)

abbrev pub append_unless : Condition → List Condition × Bool → List Condition
append_unless c (conditions, true) = conditions
append_unless c (conditions, false) = conditions ++ c ∷ []

unfoldable pub update_conditions : Condition → List Condition → List Condition
update_conditions c conditions = append_unless c (replace_condition c conditions)

unfoldable pub add_or_update_condition : HttpScaledObject → Condition → HttpScaledObject
add_or_update_condition httpso c = record httpso {
  status = record httpso.status { conditions = update_conditions c httpso.status.conditions };
}

-- `now` is the current time in RFC 3339.
abbrev pub create_condition : Text → CreationStatus → ConditionStatus → Reason → Condition
create_condition now type status reason = record {
  timestamp = now;
  type = type;
  status = status;
  reason = reason;
  message = [];
}

abbrev pub set_message : Condition → Text → Condition
set_message c message = record c { message = message }

abbrev pub no_condition : Condition
no_condition = record {
  timestamp = [];
  type = no_type;
  status = no_status;
  reason = no_reason;
  message = [];
}

abbrev pub get_initialized_conditions : List Condition
get_initialized_conditions =
    record {
      timestamp = [];
      type = ready;
      status = status_unknown;
      reason = no_reason;
      message = [];
    }
    ∷ []

abbrev pub has_type : CreationStatus → CreationStatus → Bool
has_type ready ready = true
has_type no_type no_type = true
has_type _ _ = false

unfoldable pub get_condition : CreationStatus → List Condition → Condition
get_condition type [] = no_condition
get_condition type (c ∷ rest) = if has_type c.type type then c else get_condition type rest

unfoldable pub get_ready_condition : List Condition → Condition
get_ready_condition [] = get_condition ready get_initialized_conditions
get_ready_condition (c ∷ rest) = get_condition ready (c ∷ rest)

abbrev pub is_true : Condition → Bool
is_true c = elim c.status [ status_true ↦ true | _ ↦ false ]

abbrev pub is_false : Condition → Bool
is_false c = elim c.status [ status_false ↦ true | _ ↦ false ]

-- `HTTPScaledObjectReadyConditionPredicate.Update`, where `none` is a nil object.
unfoldable pub ready_condition_update : Option HttpScaledObject → Option HttpScaledObject → Bool
ready_condition_update none new = false
ready_condition_update (some old) none = false
ready_condition_update (some old) (some new) =
    not (is_true (get_ready_condition old.status.conditions))
    && is_true (get_ready_condition new.status.conditions)
