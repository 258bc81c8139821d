-- ===== src/Operator/Conditions/Ready.antt =====
-- What the Ready condition of an object is while its conditions are updated by reason.
use http_add_on.Prelude.{
  ◌≡◌, refl, ap, ◌∙◌, Bool, true, false, some, List, [], ◌∷◌, ◌++◌, if◌then◌else◌, Bool-cases, inl,
  inr,
}
use http_add_on.Api.{HttpScaledObject, Condition, pending_creation, status_unknown, ready}
use http_add_on.Operator.Conditions.{
  reason_eq, replace_condition, append_unless, update_conditions, get_condition,
  get_ready_condition, is_true, ready_condition_update,
}

-- The condition that every reconciliation writes first.
abbrev pub IsPendingCondition : Condition → Type 0
IsPendingCondition c =
    (c.reason ≡ pending_creation) × (c.type ≡ ready) × (c.status ≡ status_unknown)

-- It stands first.
abbrev pub IsPending : List Condition → Type 0
IsPending [] = ⊥
IsPending (c ∷ rest) = IsPendingCondition c

-- There is none yet, or it stands first.
abbrev pub IsEarly : List Condition → Type 0
IsEarly [] = Unit
IsEarly (c ∷ rest) = IsPendingCondition c

pub IsPending-IsEarly : (cs : List Condition) → IsPending cs → IsEarly cs
IsPending-IsEarly [] h = tt
IsPending-IsEarly (c ∷ cs) h = h

head_kept :
    (c d : Condition) (b : Bool) (r : List Condition × Bool)
    → (t : List Condition) × (append_unless c (if b then (c ∷ r.0, true) else (d ∷ r.0, r.1))
        ≡ (if b then c else d) ∷ t)
head_kept c d true (cs, x) = (cs, refl)
head_kept c d false (cs, true) = (cs, refl)
head_kept c d false (cs, false) = (cs ++ c ∷ [], refl)

update-head :
    (c d : Condition) (rest : List Condition)
    → (t : List Condition) × (update_conditions c (d ∷ rest)
        ≡ (if reason_eq d.reason c.reason then c else d) ∷ t)
unfolding update_conditions replace_condition
update-head c d rest = head_kept c d (reason_eq d.reason c.reason) (replace_condition c rest)

-- A condition for another reason leaves the first one where it is.
pub update-IsPending :
    (c : Condition) (cs : List Condition)
    → reason_eq pending_creation c.reason ≡ false
    → IsPending cs
    → IsPending (update_conditions c cs)
update-IsPending c [] k h = absurd h
update-IsPending c (d ∷ rest) k h =
    let (t, e) = update-head c d rest in
    let other : reason_eq d.reason c.reason ≡ false = ap (λ r. reason_eq r c.reason) h.0 ∙ k in
    rw (e, other) h

-- The pending condition comes first.
pub update_early-IsPending :
    (c : Condition) (cs : List Condition)
    → IsPendingCondition c
    → IsEarly cs
    → IsPending (update_conditions c cs)
unfolding update_conditions replace_condition
update_early-IsPending c [] k h = k
update_early-IsPending c (d ∷ rest) k h =
    let (t, e) = update-head c d rest in
    let same : reason_eq d.reason c.reason ≡ true =
      ap (λ r. reason_eq r c.reason) h.0 ∙ ap (reason_eq pending_creation) k.0 in
    rw (e, same) k

pub IsPending-unready :
    (cs : List Condition) → IsPending cs → is_true (get_ready_condition cs) ≡ false
unfolding get_ready_condition get_condition
IsPending-unready [] h = absurd h
IsPending-unready (c ∷ rest) (h, t, s) = rw (t, s) refl

pub IsPending-no_update :
    (old new : HttpScaledObject)
    → IsPending new.status.conditions
    → ready_condition_update (some old) (some new) ≡ false
unfolding ready_condition_update
IsPending-no_update old new h =
    rw (IsPending-unready new.status.conditions h)
      (elim (Bool-cases (is_true (get_ready_condition old.status.conditions))) [
        | inl y ↦ rw y refl
        | inr y ↦ rw y refl
      ])
