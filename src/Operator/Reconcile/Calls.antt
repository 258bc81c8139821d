-- ===== src/Operator/Reconcile/Calls.antt =====
-- The order of the calls that a reconciliation makes.
use http_add_on.Prelude.{
  ◌≡◌, refl, Bool, true, false, ◌||◌, Option, none, some, List, [], ◌∷◌, ◌++◌, if◌then◌else◌, arith,
  Bool-cases, inl, inr,
}
use http_add_on.Prelude.Text.{text_eq_self}
use http_add_on.Api.{NamespacedName, HttpScaledObject}
use http_add_on.Operator.Finalizer.{http_scaled_object_finalizer, contains}
use http_add_on.Operator.Reconcile.{
  Call, get_httpso, update, update_status, get_scaled_object, create, patch, delete, Answers,
  Fetched, found, not_found, get_failed, ensure_finalizer, finalize_scaled_object,
  reconcile_finalizable, reconcile_fetched, reconcile_live, by_deletion, ◌>>=◌, reconcile,
  finalized,
}

abbrev pub has_finalizer : HttpScaledObject → Bool
has_finalizer h = contains h.finalizers http_scaled_object_finalizer

-- Every call that writes a ScaledObject comes when the finalizer is there: it was when the object was
-- read (`b`), or a call before it has put it there.
abbrev pub Guarded : Bool → List Call → Type 0
Guarded b [] = Unit
Guarded b (get_httpso key ∷ calls) = Guarded b calls
Guarded b (update h ∷ calls) = Guarded (b || has_finalizer h) calls
Guarded b (update_status h ∷ calls) = Guarded b calls
Guarded b (get_scaled_object key ∷ calls) = Guarded b calls
Guarded b (create so ∷ calls) = (b ≡ true) × Guarded b calls
Guarded b (patch so ∷ calls) = (b ≡ true) × Guarded b calls
Guarded b (delete so ∷ calls) = (b ≡ true) × Guarded b calls

-- Once the finalizer is there, all is guarded.
Guarded-true : (calls : List Call) → Guarded true calls
Guarded-true [] = tt
Guarded-true (get_httpso key ∷ calls) = Guarded-true calls
Guarded-true (update h ∷ calls) = Guarded-true calls
Guarded-true (update_status h ∷ calls) = Guarded-true calls
Guarded-true (get_scaled_object key ∷ calls) = Guarded-true calls
Guarded-true (create so ∷ calls) = (refl, Guarded-true calls)
Guarded-true (patch so ∷ calls) = (refl, Guarded-true calls)
Guarded-true (delete so ∷ calls) = (refl, Guarded-true calls)

contains-append : (l : List _) (s : _) → contains (l ++ s ∷ []) s ≡ true
unfolding contains
contains-append [] s = rw (text_eq_self s) refl
contains-append (x ∷ l) s = ground (arith, contains-append l s)

ensured-Guarded :
    (a : Answers) (h h' : HttpScaledObject) (o : Option HttpScaledObject) (b : Bool)
    → has_finalizer h' ≡ true
    → Guarded b ((if b then ([], some h) else (update h' ∷ [], o)) >>= reconcile_finalizable a).0
ensured-Guarded a h h' o true k = Guarded-true (reconcile_finalizable a (some h)).0
ensured-Guarded a h h' o false k = rw k (Guarded-true (reconcile_finalizable a o).0)

live-Guarded :
    (a : Answers) (h : HttpScaledObject) → Guarded (has_finalizer h) (reconcile_live a h).0
unfolding ensure_finalizer
live-Guarded a h =
    ensured-Guarded a h _ _ (has_finalizer h)
      (contains-append h.finalizers http_scaled_object_finalizer)

finalized-Guarded :
    (a : Answers) (h : HttpScaledObject) (b : Bool) (fs : Option (List _))
    → Guarded b (finalized a h fs).0
finalized-Guarded a h b none = tt
finalized-Guarded a h b (some fs) = tt

finalize-Guarded :
    (a : Answers) (h : HttpScaledObject) (b : Bool) → Guarded b (finalize_scaled_object a h).0
unfolding finalize_scaled_object
finalize-Guarded a h b = elim (Bool-cases (has_finalizer h)) [
  | inl y ↦ rw y (finalized-Guarded a h b _)
  | inr y ↦ rw y tt
]

abbrev pub fetched_finalizer : Fetched → Bool
fetched_finalizer (found h) = has_finalizer h
fetched_finalizer not_found = false
fetched_finalizer get_failed = false

by_deletion-Guarded :
    (a : Answers) (h : HttpScaledObject) (o : Option _)
    → Guarded (has_finalizer h) (by_deletion a h o).0
by_deletion-Guarded a h none = live-Guarded a h
by_deletion-Guarded a h (some t) = finalize-Guarded a h (has_finalizer h)

fetched-Guarded :
    (a : Answers) (r : Fetched) → Guarded (fetched_finalizer r) (reconcile_fetched a r).0
fetched-Guarded a not_found = tt
fetched-Guarded a get_failed = tt
fetched-Guarded a (found h) = by_deletion-Guarded a h h.deletion_timestamp

-- Whatever the API answers, a reconciliation creates, patches or deletes a ScaledObject only when the
-- HTTPScaledObject carries the finalizer: it did when it was read, or the reconciliation has sent an
-- update that adds it before.
pub reconcile-Guarded :
    (a : Answers) (key : NamespacedName)
    → Guarded (fetched_finalizer (a.on_get key)) (reconcile a key).0
unfolding reconcile
reconcile-Guarded a key = fetched-Guarded a (a.on_get key)
