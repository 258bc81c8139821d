-- ===== src/Operator/Reconcile/Status.antt =====
-- The conditions that a reconciliation writes.
use http_add_on.Prelude.{
  ◌≡◌, refl, sym, ap, Bool, true, false, Option, none, some, List, [], ◌∷◌, ◌++◌, if◌then◌else◌,
  Bool-cases, Option-cases, inl, inr,
}
use http_add_on.Api.{NamespacedName, HttpScaledObject}
use http_add_on.Operator.Conditions.{add_or_update_condition, ready_condition_update}
use http_add_on.Operator.Conditions.Ready.{
  IsPending, IsEarly, update-IsPending, update_early-IsPending, IsPending-no_update,
}
use http_add_on.Operator.Finalizer.{http_scaled_object_finalizer, contains, remove}
use http_add_on.Operator.ScaledObject.{ScaledObject}
use http_add_on.Operator.Reconcile.{
  Call, get_httpso, update, update_status, get_scaled_object, create, patch, delete, Run, Answers,
  Fetched, found, Created, created, already_exists, create_failed, save_status, ensure_finalizer,
  finalize_scaled_object, delete_scaled_object, delete_fetched, is_owner_reference_match,
  after_create, create_owned, patch_fetched, create_or_update_scaled_object,
  create_or_update_application_resources, application_resources, skips_creation,
  reconcile_finalizable, finish, both_metrics, reconcile_fetched, by_deletion, ◌>>=◌, reconcile,
  or_same, pending_condition, with_targets,
}

-- What holds of every status that the calls save.
abbrev pub Saved : (HttpScaledObject → Type 0) → List Call → Type 0
Saved P [] = Unit
Saved P (get_httpso key ∷ calls) = Saved P calls
Saved P (update h ∷ calls) = Saved P calls
Saved P (update_status h ∷ calls) = P h × Saved P calls
Saved P (get_scaled_object key ∷ calls) = Saved P calls
Saved P (create so ∷ calls) = Saved P calls
Saved P (patch so ∷ calls) = Saved P calls
Saved P (delete so ∷ calls) = Saved P calls

Saved-append :
    (P : HttpScaledObject → Type 0) (a b : List Call) → Saved P a → Saved P b → Saved P (a ++ b)
Saved-append P [] b ha hb = hb
Saved-append P (get_httpso key ∷ a) b ha hb = Saved-append P a b ha hb
Saved-append P (update h ∷ a) b ha hb = Saved-append P a b ha hb
Saved-append P (update_status h ∷ a) b ha hb = (ha.0, Saved-append P a b ha.1 hb)
Saved-append P (get_scaled_object key ∷ a) b ha hb = Saved-append P a b ha hb
Saved-append P (create so ∷ a) b ha hb = Saved-append P a b ha hb
Saved-append P (patch so ∷ a) b ha hb = Saved-append P a b ha hb
Saved-append P (delete so ∷ a) b ha hb = Saved-append P a b ha hb

-- An update answers with the conditions that were sent.
abbrev pub Keeps : (HttpScaledObject → Option HttpScaledObject) → Type 0
Keeps answer =
    (h h' : HttpScaledObject) → answer h ≡ some h' → h'.status.conditions ≡ h.status.conditions

abbrev pub Pending : HttpScaledObject → Type 0
Pending h = IsPending h.status.conditions

kept :
    (h : HttpScaledObject) (o : Option HttpScaledObject)
    → ((h' : HttpScaledObject) → o ≡ some h' → h'.status.conditions ≡ h.status.conditions)
    → Pending h
    → Pending (or_same h o)
kept h none k p = p
kept h (some h') k p = rw (k h' refl) p

module _ (a : Answers) (keeps : Keeps a.on_update) (keeps_status : Keeps a.on_update_status) where
  -- A part of the run saves pending conditions only, and leaves them.
  abbrev pub Good : Run (HttpScaledObject × Bool) → Type 0
  Good r = Saved Pending r.0 × Pending r.1.0

  patch-Good :
      (h : HttpScaledObject) (so : ScaledObject) (o : Option ScaledObject)
      → Pending h
      → Good (patch_fetched a h so o)
  unfolding add_or_update_condition
  patch-Good h so none p = (tt, p)
  patch-Good h so (some x) p = elim (Bool-cases (a.on_patch so)) [
    | inl y ↦ rw y (tt, update-IsPending _ h.status.conditions refl p)
    | inr y ↦ rw y (tt, p)
  ]

  create-Good :
      (h : HttpScaledObject) (so : ScaledObject) (c : Created)
      → Pending h
      → Good (after_create a h so c)
  unfolding add_or_update_condition
  create-Good h so created p = (tt, update-IsPending _ h.status.conditions refl p)
  create-Good h so already_exists p = patch-Good h so (a.on_get_scaled_object so.key) p
  create-Good h so (create_failed m) p = (tt, update-IsPending _ h.status.conditions refl p)

  owned-Good :
      (h : HttpScaledObject) (o : Option ScaledObject) → Pending h → Good (create_owned a h o)
  owned-Good h none p = (tt, p)
  owned-Good h (some so) p = create-Good h so (a.on_create so) p

  delete_good :
      (h : HttpScaledObject) (o : Option ScaledObject) → Saved Pending (delete_fetched h o).0
  delete_good h none = tt
  delete_good h (some so) = elim (Bool-cases (is_owner_reference_match so h)) [
    | inl y ↦ rw y tt
    | inr y ↦ rw y tt
  ]

  application-Good : (h : HttpScaledObject) → Pending h → Good (application_resources a h)
  unfolding delete_scaled_object create_or_update_scaled_object
  application-Good h p = elim (Bool-cases (skips_creation h)) [
    | inl y ↦ rw y (delete_good h _, p)
    | inr y ↦ rw y (owned-Good h _ p)
  ]

  saved_kept : (h : HttpScaledObject) → Pending h → Pending (or_same h (a.on_update_status h))
  saved_kept h p = kept h (a.on_update_status h) (keeps_status h) p

  resources-Good :
      (h : HttpScaledObject)
      → IsEarly h.status.conditions
      → Good (create_or_update_application_resources a h)
  unfolding create_or_update_application_resources save_status add_or_update_condition
  resources-Good h e =
      let start = add_or_update_condition h (pending_condition a) in
      let (g, p) =
        application-Good start
          (update_early-IsPending _ h.status.conditions (refl, refl, refl) e) in
      (Saved-append Pending (application_resources a start).0 _ g (p, tt), saved_kept _ p)

  finish_good : (r : HttpScaledObject × Bool) → Pending r.0 → Saved Pending (finish a r).0
  unfolding save_status add_or_update_condition
  finish_good (h, false) p = tt
  finish_good (h, true) p = (update-IsPending _ h.status.conditions refl p, tt)

  finalizable_good :
      (o : Option HttpScaledObject)
      → ((h : HttpScaledObject) → o ≡ some h → IsEarly h.status.conditions)
      → Saved Pending (reconcile_finalizable a o).0
  finalizable_good none e = tt
  finalizable_good (some h) e = elim (Bool-cases (both_metrics h.spec.scaling_metric)) [
    | inl y ↦ rw y tt
    | inr y ↦
        let (g, p) = resources-Good (with_targets h) (e h refl) in
        rw y (
          Saved-append Pending (create_or_update_application_resources a (with_targets h)).0 _ g
            (finish_good (create_or_update_application_resources a (with_targets h)).1 p))
  ]

  ensured_good :
      (h h' : HttpScaledObject) (b : Bool)
      → h'.status.conditions ≡ h.status.conditions
      → IsEarly h.status.conditions
      → Saved Pending
          ((if b then ([], some h) else (update h' ∷ [], a.on_update h'))
            >>= reconcile_finalizable a).0
  ensured_good h h' true k e =
      finalizable_good (some h) (λ x p. let q : x ≡ h = sym (ap (or_same h) p) in rw q e)
  ensured_good h h' false k e = finalizable_good (a.on_update h') (λ x p. rw (keeps h' x p, k) e)

  finalize_good : (h : HttpScaledObject) → Saved Pending (finalize_scaled_object a h).0
  unfolding finalize_scaled_object
  finalize_good h = elim (Bool-cases (contains h.finalizers http_scaled_object_finalizer)) [
    | inl y ↦ rw y (elim (Option-cases (remove h.finalizers http_scaled_object_finalizer)) [
      | inl z ↦ rw z tt
      | inr (fs, z) ↦ rw z tt
    ])
    | inr y ↦ rw y tt
  ]

  deletion_good :
      (h : HttpScaledObject) (o : Option _)
      → IsEarly h.status.conditions
      → Saved Pending (by_deletion a h o).0
  unfolding ensure_finalizer
  deletion_good h none e = ensured_good h _ _ refl e
  deletion_good h (some t) e = finalize_good h

  fetched_good :
      (h : HttpScaledObject) (r : Fetched)
      → r ≡ found h
      → IsEarly h.status.conditions
      → Saved Pending (reconcile_fetched a r).0
  fetched_good h r k e = rw k (deletion_good h h.deletion_timestamp e)

-- Let the API keep the conditions that an update sends, and let the conditions of the object that is
-- read be none, or begin with the pending condition. Then so do those of every status that the
-- reconciliation saves, whatever else the API answers, success included; the next reconciliation
-- starts from such an object again.
pub reconcile-Pending :
    (a : Answers) (key : NamespacedName) (h : HttpScaledObject)
    → Keeps a.on_update
    → Keeps a.on_update_status
    → a.on_get key ≡ found h
    → IsEarly h.status.conditions
    → Saved Pending (reconcile a key).0
unfolding reconcile
reconcile-Pending a key h keeps keeps_status r e =
    fetched_good a keeps keeps_status h (a.on_get key) r e

-- The predicate for the Ready condition lets no update to a pending object pass.
abbrev pub Ignored : HttpScaledObject → Type 0
Ignored h = (old : HttpScaledObject) → ready_condition_update (some old) (some h) ≡ false

Saved-map :
    (P Q : HttpScaledObject → Type 0)
    → ((h : HttpScaledObject) → P h → Q h)
    → (calls : List Call) → Saved P calls
    → Saved Q calls
Saved-map P Q f [] s = s
Saved-map P Q f (get_httpso key ∷ calls) s = Saved-map P Q f calls s
Saved-map P Q f (update h ∷ calls) s = Saved-map P Q f calls s
Saved-map P Q f (update_status h ∷ calls) s = (f h s.0, Saved-map P Q f calls s.1)
Saved-map P Q f (get_scaled_object key ∷ calls) s = Saved-map P Q f calls s
Saved-map P Q f (create so ∷ calls) s = Saved-map P Q f calls s
Saved-map P Q f (patch so ∷ calls) s = Saved-map P Q f calls s
Saved-map P Q f (delete so ∷ calls) s = Saved-map P Q f calls s

-- Under the same conditions no status that the reconciliation saves makes
-- `HTTPScaledObjectReadyConditionPredicate` true, whatever the object was before: the Ready condition
-- that it reads is the pending one.
pub reconcile-Ignored :
    (a : Answers) (key : NamespacedName) (h : HttpScaledObject)
    → Keeps a.on_update
    → Keeps a.on_update_status
    → a.on_get key ≡ found h
    → IsEarly h.status.conditions
    → Saved Ignored (reconcile a key).0
reconcile-Ignored a key h keeps keeps_status r e =
    Saved-map Pending Ignored (λ new p old. IsPending-no_update old new p) (reconcile a key).0
      (reconcile-Pending a key h keeps keeps_status r e)
