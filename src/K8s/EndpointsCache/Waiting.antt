-- ===== src/K8s/EndpointsCache/Waiting.antt =====
-- The wait for a workload over the events of the cache.
use mathlib.Core.Option
use http_add_on.Prelude.{
  ℕ, ◌<◌, ◌≡◌, ◌↔◌, ◌⊎◌, inl, inr, refl, Bool, true, false, ◌&&◌, Option, none, some, List, [], ◌∷◌,
  ◌++◌, ltb, if◌then◌else◌, Bool-cases, lt→ltb, ltb→lt,
}
use http_add_on.Prelude.Text.{Text}
use http_add_on.Interceptor.Wait.{Waited, ready, wait_loop, forward_wait, workload_active_endpoints}
use http_add_on.K8s.EndpointsCache.{
  EndpointSlice, EventType, Broadcast, Informed, adds, updates, deletes, action, broadcasts, is_of,
  watch, seen, get,
}

abbrev pub IsActive : Text → Text → EndpointSlice → Type 0
IsActive ns name slice =
    (is_of ns name slice ≡ true) × (0 < workload_active_endpoints slice.endpoints)

unfoldable pub SomeBroadcast : Text → Text → List Broadcast → Type 0
SomeBroadcast ns name [] = ⊥
SomeBroadcast ns name ((t, slice) ∷ rest) = IsActive ns name slice ⊎ SomeBroadcast ns name rest

wait_loop-head :
    (b : Bool) (t : EventType) (slice : EndpointSlice) (l : List Broadcast)
    → wait_loop (seen (if b then (t, slice) ∷ l else l)) ≡ (
        if b && ltb 0 (workload_active_endpoints slice.endpoints)
        then ready true
        else wait_loop (seen l))
unfolding wait_loop
wait_loop-head true t slice l = refl
wait_loop-head false t slice l = refl

either_ready :
    (b : Bool) (n : ℕ) (w : Waited) (P : Type 0)
    → (w ≡ ready true) ↔ P
    → ((if b && ltb 0 n then ready true else w) ≡ ready true) ↔ (((b ≡ true) × (0 < n)) ⊎ P)
either_ready false n w P h =
    (λ e. inr (h.0 e), λ x. elim x [ inl k ↦ absurd (cc (k.0)) | inr p ↦ h.1 p ])
either_ready true n w P h = elim (Bool-cases (ltb 0 n)) [
  | inl y ↦ rw y ((λ e. inl (refl, ltb→lt 0 n y)), (λ x. refl))
  | inr y ↦
      rw y (
        (λ e. inr (h.0 e)),
        λ x. elim x [ inl k ↦ absurd (cc (lt→ltb 0 n k.1, y)) | inr p ↦ h.1 p ],
      )
]

wait_loop-watch :
    (ns name : Text) (l : List Broadcast)
    → (wait_loop (seen (watch ns name l)) ≡ ready true) ↔ SomeBroadcast ns name l
unfolding wait_loop watch SomeBroadcast
wait_loop-watch ns name [] = ((λ e. absurd (cc e)), λ h. absurd h)
wait_loop-watch ns name ((t, slice) ∷ rest) =
    rw (wait_loop-head (is_of ns name slice) t slice (watch ns name rest)) (
      either_ready (is_of ns name slice) (workload_active_endpoints slice.endpoints)
        (wait_loop (seen (watch ns name rest))) (SomeBroadcast ns name rest)
        (wait_loop-watch ns name rest))

-- The slice that a handler is called with.
abbrev pub carried : Informed → Option EndpointSlice
carried (adds obj) = obj
carried (updates old_obj new_obj) = new_obj
carried (deletes obj) = obj

abbrev pub IsActiveOf : Text → Text → Option EndpointSlice → Type 0
IsActiveOf ns name none = ⊥
IsActiveOf ns name (some slice) = IsActive ns name slice

unfoldable pub SomeActive : Text → Text → List Informed → Type 0
SomeActive ns name [] = ⊥
SomeActive ns name (i ∷ rest) = IsActiveOf ns name (carried i) ⊎ SomeActive ns name rest

broadcast_action :
    (ns name : Text) (t : EventType) (obj : Option EndpointSlice) (l : List Broadcast) (P : Type 0)
    → SomeBroadcast ns name l ↔ P
    → SomeBroadcast ns name (action t obj ++ l) ↔ (IsActiveOf ns name obj ⊎ P)
unfolding SomeBroadcast
broadcast_action ns name t none l P h =
    ((λ x. inr (h.0 x)), λ x. elim x [ inl k ↦ absurd k | inr p ↦ h.1 p ])
broadcast_action ns name t (some slice) l P h = (
  (λ x. elim x [ inl k ↦ inl k | inr p ↦ inr (h.0 p) ]),
  λ x. elim x [ inl k ↦ inl k | inr p ↦ inr (h.1 p) ],
)

broadcasts-SomeActive :
    (ns name : Text) (l : List Informed)
    → SomeBroadcast ns name (broadcasts l) ↔ SomeActive ns name l
unfolding broadcasts SomeBroadcast SomeActive
broadcasts-SomeActive ns name [] = ((λ h. h), λ h. h)
broadcasts-SomeActive ns name (adds obj ∷ rest) =
    broadcast_action ns name _ obj (broadcasts rest) _ (broadcasts-SomeActive ns name rest)
broadcasts-SomeActive ns name (updates old_obj new_obj ∷ rest) =
    broadcast_action ns name _ new_obj (broadcasts rest) _ (broadcasts-SomeActive ns name rest)
broadcasts-SomeActive ns name (deletes obj ∷ rest) =
    broadcast_action ns name _ obj (broadcasts rest) _ (broadcasts-SomeActive ns name rest)

-- For a service whose first slice in the cache has no active endpoint, and while the context lasts:
-- the wait for it ends with a cold start exactly if the informer has since told of a slice of that
-- service, in its namespace, with an active endpoint, whether as added, changed or deleted; the
-- slices of other services never end it.
pub forward_wait-SomeActive :
    (lister : Text → Text → Option (List EndpointSlice)) (ns name : Text) (slice : EndpointSlice)
    (informed : List Informed)
    → get lister ns name ≡ some slice
    → workload_active_endpoints slice.endpoints ≡ 0
    → (forward_wait true
          (Option.map (λ s. s.endpoints) (get lister ns name))
          (seen (watch ns name (broadcasts informed)))
        ≡ ready true)
      ↔ SomeActive ns name informed
unfolding forward_wait
forward_wait-SomeActive lister ns name slice informed e idle =
    let (there, back) = wait_loop-watch ns name (broadcasts informed) in
    let (there', back') = broadcasts-SomeActive ns name informed in
    rw (e, idle) ((λ k. there' (there k)), λ k. back (back' k))
