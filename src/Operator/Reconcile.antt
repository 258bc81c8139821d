-- ===== src/Operator/Reconcile.antt =====
-- operator/controllers/http/httpscaledobject_controller.go, app.go and scaled_object.go, with the
-- client's calls of finalizer.go and condition_provider.go. The Kubernetes API is an argument, by its
-- answers; a run is the list of the calls that are made, in order, and the result.

pub mod Calls
pub mod Deleted
pub mod Status
use http_add_on.Prelude.{
  ℕ, Bool, true, false, ◌&&◌, Option, none, some, List, [], ◌∷◌, ◌++◌, if◌then◌else◌,
}
use http_add_on.Prelude.Text.{Text, text_eq, codes}
use http_add_on.Prelude.Decimal.{print_int, to_lower}
use http_add_on.Prelude.Dict.{lookup, text_Eq}
use http_add_on.Api.{
  NamespacedName, HttpScaledObject, ScaleTargetRef, ReplicaStruct, ScalingMetricSpec, Condition,
  ready, status_true, status_false, status_unknown, Reason, pending_creation,
  app_scaled_object_created, error_creating_app_scaled_object, http_scaled_object_is_ready,
}
use http_add_on.Operator.Conditions.{add_or_update_condition, create_condition, set_message}
use http_add_on.Operator.Finalizer.{http_scaled_object_finalizer, contains, remove}
use http_add_on.Operator.ScaledObject.{ScaledObject, OwnerReference, new_scaled_object}
pub use http_add_on.Operator.Client.{
  Call, get_httpso, update, update_status, get_scaled_object, create, patch, delete, Run, call,
  ◌>>=◌, Fetched, found, not_found, get_failed, Created, created, already_exists, create_failed,
  Answers, Result, done, requeue_after_error, failed, panicked,
}

abbrev pub or_same : HttpScaledObject → Option HttpScaledObject → HttpScaledObject
or_same h none = h
or_same h (some h') = h'

-- The object as the API returned it; an error is only logged.
unfoldable pub save_status : Answers → HttpScaledObject → Run HttpScaledObject
save_status a h = (update_status h ∷ [], or_same h (a.on_update_status h))

unfoldable pub ensure_finalizer : Answers → HttpScaledObject → Run (Option HttpScaledObject)
ensure_finalizer a h =
    let h' = record h { finalizers = h.finalizers ++ http_scaled_object_finalizer ∷ [] } in
    if contains h.finalizers http_scaled_object_finalizer
    then ([], some h)
    else (update h' ∷ [], a.on_update h')

abbrev pub finalized : Answers → HttpScaledObject → Option (List Text) → Run Result
finalized a h none = ([], panicked)
finalized a h (some finalizers) =
    let h' = record h { finalizers = finalizers } in
    (update h' ∷ [], elim (a.on_update h') [ none ↦ failed | some _ ↦ done ])

unfoldable pub finalize_scaled_object : Answers → HttpScaledObject → Run Result
finalize_scaled_object a h =
    if contains h.finalizers http_scaled_object_finalizer
    then finalized a h (remove h.finalizers http_scaled_object_finalizer)
    else ([], done)

abbrev pub any_owner : Text → List OwnerReference → Bool
any_owner name [] = false
any_owner name (owner ∷ rest) =
    if text_eq (to_lower owner.kind) (codes "httpscaledobject") && text_eq owner.name name
    then true
    else any_owner name rest

unfoldable pub is_owner_reference_match : ScaledObject → HttpScaledObject → Bool
is_owner_reference_match so h = any_owner h.key.name so.owner_references

-- Whether it is without error; an error of the deletion is only logged.
abbrev pub delete_fetched : HttpScaledObject → Option ScaledObject → Run Bool
delete_fetched h none = ([], false)
delete_fetched h (some so) =
    if is_owner_reference_match so h then (delete so ∷ [], true) else ([], true)

unfoldable pub delete_scaled_object : Answers → HttpScaledObject → Run Bool
delete_scaled_object a h =
    call (get_scaled_object h.key) (delete_fetched h (a.on_get_scaled_object h.key))

abbrev pub created_condition : Answers → Condition
created_condition a =
    set_message
      (create_condition (a.now app_scaled_object_created) ready status_true
        app_scaled_object_created)
      (codes "App ScaledObject created")

abbrev pub failed_condition : Answers → Text → Condition
failed_condition a message =
    set_message
      (create_condition (a.now error_creating_app_scaled_object) ready status_false
        error_creating_app_scaled_object)
      message

abbrev pub pending_condition : Answers → Condition
pending_condition a =
    set_message (create_condition (a.now pending_creation) ready status_unknown pending_creation)
      (codes "Identified HTTPScaledObject creation signal")

abbrev pub ready_condition : Answers → Condition
ready_condition a =
    set_message
      (create_condition (a.now http_scaled_object_is_ready) ready status_true
        http_scaled_object_is_ready)
      (codes "Finished object creation")

abbrev pub patch_fetched :
    Answers → HttpScaledObject → ScaledObject → Option ScaledObject → Run (HttpScaledObject × Bool)
patch_fetched a h so none = ([], (h, false))
patch_fetched a h so (some _) = (
  patch so ∷ [],
  if a.on_patch so then (add_or_update_condition h (created_condition a), true) else (h, false),
)

abbrev pub after_create :
    Answers → HttpScaledObject → ScaledObject → Created → Run (HttpScaledObject × Bool)
after_create a h so created = ([], (add_or_update_condition h (created_condition a), true))
after_create a h so already_exists =
    call (get_scaled_object so.key) (patch_fetched a h so (a.on_get_scaled_object so.key))
after_create a h so (create_failed message) =
    ([], (add_or_update_condition h (failed_condition a message), false))

abbrev pub create_owned :
    Answers → HttpScaledObject → Option ScaledObject → Run (HttpScaledObject × Bool)
create_owned a h none = ([], (h, false))
create_owned a h (some so) = call (create so) (after_create a h so (a.on_create so))

abbrev pub min_of : Option ReplicaStruct → Option ℕ
min_of none = none
min_of (some r) = r.min

abbrev pub max_of : Option ReplicaStruct → Option ℕ
max_of none = none
max_of (some r) = r.max

unfoldable pub app_scaled_object : Answers → HttpScaledObject → ScaledObject
app_scaled_object a h =
    new_scaled_object h.key h.labels h.annotations h.spec.scale_target_ref a.host_name
      (min_of h.spec.replicas) (max_of h.spec.replicas) h.spec.cooldown_period
      h.spec.initial_cooldown_period

-- The object that it leaves, and whether it is without error.
unfoldable pub create_or_update_scaled_object :
    Answers → HttpScaledObject → Run (HttpScaledObject × Bool)
create_or_update_scaled_object a h =
    create_owned a h (a.set_controller_reference h (app_scaled_object a h))

abbrev pub skips_creation : HttpScaledObject → Bool
skips_creation h =
    elim (lookup (codes "httpscaledobject.keda.sh/skip-scaledobject-creation") h.annotations) [
      | none ↦ false
      | some v ↦ text_eq v (codes "true")
    ]

abbrev pub application_resources : Answers → HttpScaledObject → Run (HttpScaledObject × Bool)
application_resources a h =
    if skips_creation h
    then ((delete_scaled_object a h).0, (h, true))
    else create_or_update_scaled_object a h

-- The status is saved when it returns.
unfoldable pub create_or_update_application_resources :
    Answers → HttpScaledObject → Run (HttpScaledObject × Bool)
create_or_update_application_resources a h = do
  r ← application_resources a (add_or_update_condition h (pending_condition a))
  saved ← save_status a r.0
  ([], (saved, r.1))

abbrev pub target_workload : ScaleTargetRef → Text
target_workload r = r.api_version ++ (codes "/" ++ (r.kind ++ (codes "/" ++ r.name)))

abbrev pub target_service : ScaleTargetRef → Text
target_service r = r.service ++ (codes ":" ++ print_int r.port)

abbrev pub with_targets : HttpScaledObject → HttpScaledObject
with_targets h = record h {
  status = record h.status {
    target_workload = target_workload h.spec.scale_target_ref;
    target_service = target_service h.spec.scale_target_ref;
  };
}

abbrev pub both_metrics : Option ScalingMetricSpec → Bool
both_metrics none = false
both_metrics (some m) = elim m.concurrency [
  | none ↦ false
  | some _ ↦ elim m.rate [ none ↦ false | some _ ↦ true ]
]

abbrev pub finish : Answers → HttpScaledObject × Bool → Run Result
finish a (h, false) = ([], failed)
finish a (h, true) = do
  saved ← save_status a (add_or_update_condition h (ready_condition a))
  ([], done)

abbrev pub reconcile_finalizable : Answers → Option HttpScaledObject → Run Result
reconcile_finalizable a none = ([], failed)
reconcile_finalizable a (some h) =
    if both_metrics h.spec.scaling_metric
    then ([], failed)
    else (create_or_update_application_resources a (with_targets h) >>= finish a)

abbrev pub reconcile_live : Answers → HttpScaledObject → Run Result
reconcile_live a h = ensure_finalizer a h >>= reconcile_finalizable a

abbrev pub by_deletion : Answers → HttpScaledObject → Option ℕ → Run Result
by_deletion a h none = reconcile_live a h
by_deletion a h (some _) = finalize_scaled_object a h

abbrev pub reconcile_fetched : Answers → Fetched → Run Result
reconcile_fetched a not_found = ([], done)
reconcile_fetched a get_failed = ([], requeue_after_error)
reconcile_fetched a (found h) = by_deletion a h h.deletion_timestamp

unfoldable pub reconcile : Answers → NamespacedName → Run Result
reconcile a key = call (get_httpso key) (reconcile_fetched a (a.on_get key))
