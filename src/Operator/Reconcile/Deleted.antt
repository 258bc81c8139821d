-- ===== src/Operator/Reconcile/Deleted.antt =====
-- The reconciliation of an object that is being deleted.
use http_add_on.Prelude.{ℕ, ◌≡◌, refl, true, false, Option, none, some, List, [], ◌∷◌, ◌++◌, arith}
use http_add_on.Prelude.Text.{Text, text_eq_self}
use http_add_on.Api.{NamespacedName, HttpScaledObject}
use http_add_on.Operator.Finalizer.{http_scaled_object_finalizer, contains}
use http_add_on.Operator.Finalizer.Once.{remove_once}
use http_add_on.Operator.Reconcile.{
  get_httpso, update, Answers, found, Result, done, failed, finalize_scaled_object, reconcile,
}

contains-middle : (a b : List Text) (s : Text) → contains (a ++ s ∷ b) s ≡ true
unfolding contains
contains-middle [] b s = rw (text_eq_self s) refl
contains-middle (x ∷ a) b s = ground (arith, contains-middle a b s)

abbrev result_of : Option HttpScaledObject → Result
result_of none = failed
result_of (some h) = done

-- An object that is being deleted and carries the program's finalizer once, among others: the
-- reconciliation reads it and sends one update, of the object without that finalizer and with all
-- others in their order; it calls nothing for a ScaledObject, and its result is that of the update.
pub reconcile_deleted :
    (a : Answers) (key : NamespacedName) (h : HttpScaledObject) (t : ℕ) (x y : List Text)
    → a.on_get key ≡ found h
    → h.deletion_timestamp ≡ some t
    → h.finalizers ≡ x ++ http_scaled_object_finalizer ∷ y
    → contains x http_scaled_object_finalizer ≡ false
    → contains y http_scaled_object_finalizer ≡ false
    → reconcile a key ≡ (
      get_httpso key ∷ update (record h { finalizers = x ++ y }) ∷ [],
      result_of (a.on_update (record h { finalizers = x ++ y })),
    )
unfolding reconcile finalize_scaled_object
reconcile_deleted a key h t x y e d f hx hy =
    rw
      (
        e,
        d,
        f,
        contains-middle x y http_scaled_object_finalizer,
        remove_once x y http_scaled_object_finalizer hx hy,
      )
      refl
