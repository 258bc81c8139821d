-- ===== src/Tests/Operator.antt =====
-- Tests of the operator.
use http_add_on.Prelude.{◌≡◌, refl, sym, ap, true, Option, none, some, List, [], ◌∷◌}
use http_add_on.Prelude.Text.{codes}
use http_add_on.Prelude.Dict.{text_Eq}
use http_add_on.Api.{HttpScaledObject, Condition}
use http_add_on.Operator.Finalizer.{http_scaled_object_finalizer, contains}
use http_add_on.Operator.Reconcile.Deleted.{reconcile_deleted}
use http_add_on.Operator.Reconcile.{Answers, found, created, get_httpso, update, done, reconcile}
use http_add_on.Operator.Reconcile.Calls.{Guarded, fetched_finalizer, reconcile-Guarded}
use http_add_on.Operator.Reconcile.Status.{Saved, Ignored, Keeps, reconcile-Ignored}
use http_add_on.Tests.Data.{web}

-- An API on which every call succeeds.
abbrev pub answers : Answers
answers = record {
  on_get = λ n. found web;
  on_update = λ h. some h;
  on_update_status = λ h. some h;
  on_get_scaled_object = λ n. none;
  on_create = λ so. created;
  on_patch = λ so. true;
  set_controller_reference = λ h so. some so;
  now = λ r. codes "now";
  host_name = codes "scaler.keda:9090";
}

reconcile-Guarded_example : Guarded (fetched_finalizer (found web)) (reconcile answers web.key).0
reconcile-Guarded_example = reconcile-Guarded answers web.key

abbrev conditions_of : Option HttpScaledObject → List Condition
conditions_of none = []
conditions_of (some h) = h.status.conditions

all_kept : Keeps (λ h. some h)
all_kept h h' e = ap conditions_of (sym e)

reconcile-Ignored_example : Saved Ignored (reconcile answers web.key).0
reconcile-Ignored_example = reconcile-Ignored answers web.key web all_kept all_kept refl tt

-- An object that is being deleted, with a finalizer of another program before ours.
abbrev deleted_web : HttpScaledObject
deleted_web = record web {
  deletion_timestamp = some 7;
  finalizers = codes "other" ∷ http_scaled_object_finalizer ∷ [];
}

reconcile_deleted_example :
    reconcile (record answers { on_get = λ n. found deleted_web }) web.key ≡ (
      get_httpso web.key ∷ update (record deleted_web { finalizers = codes "other" ∷ [] }) ∷ [],
      done,
    )
unfolding contains
reconcile_deleted_example =
    reconcile_deleted (record answers { on_get = λ n. found deleted_web }) web.key deleted_web 7
      (codes "other" ∷ []) [] refl refl refl refl refl
