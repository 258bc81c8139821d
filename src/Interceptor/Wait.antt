-- ===== src/Interceptor/Wait.antt =====
-- interceptor/forward_wait_func.go: waiting for the workload's first active endpoint.
use http_add_on.Prelude.{
  ℕ, ◌+◌, ◌<◌, ◌≡◌, refl, ◌∙◌, lt→ltb, Bool, true, false, Option, none, some, List, [], ◌∷◌, ◌++◌,
  ltb, if◌then◌else◌, length,
}
use http_add_on.Prelude.Text.{Text}

pub record Endpoint : Type 0 where
  -- `Conditions.Ready`
  pub ready : Option Bool
  pub addresses : List Text

-- A missing condition counts as ready.
abbrev pub is_ready : Endpoint → Bool
is_ready e = elim e.ready [ none ↦ true | some b ↦ b ]

unfoldable pub workload_active_endpoints : List Endpoint → ℕ
workload_active_endpoints [] = 0
workload_active_endpoints (e ∷ rest) =
    let total = workload_active_endpoints rest in
    if is_ready e then length e.addresses + total else total

pub data Event : Type 0 where
  -- the watched endpoint slice has changed, or the event has another object
  endpoints : List Endpoint → Event
  other_object : Event
  context_done : Event

pub data Waited : Type 0 where
  -- with whether it is a cold start
  ready : Bool → Waited
  failed : Waited
  -- it still waits after these events
  waiting : Waited

unfoldable pub wait_loop : List Event → Waited
wait_loop [] = waiting
wait_loop (endpoints slice ∷ events) =
    let rest = wait_loop events in
    if ltb 0 (workload_active_endpoints slice) then ready true else rest
wait_loop (other_object ∷ events) = wait_loop events
wait_loop (context_done ∷ events) = failed

abbrev pub after_get : Option (List Endpoint) → List Event → Waited
after_get none events = failed
after_get (some slice) events =
    if ltb 0 (workload_active_endpoints slice) then ready false else wait_loop events

-- The watch is there before the state is read: `watched` is whether it is, `initial` is what is read,
-- and `events` is what the watch and the context give from then on.
unfoldable pub forward_wait : Bool → Option (List Endpoint) → List Event → Waited
forward_wait false initial events = failed
forward_wait true initial events = after_get initial events

-- Events that tell nothing: the context is not done, and no slice has an active endpoint.
abbrev pub AreQuiet : List Event → Type 0
AreQuiet [] = Unit
AreQuiet (endpoints slice ∷ events) = (workload_active_endpoints slice ≡ 0) × AreQuiet events
AreQuiet (other_object ∷ events) = AreQuiet events
AreQuiet (context_done ∷ events) = ⊥

wait_loop-quiet :
    (quiet rest : List Event) → AreQuiet quiet → wait_loop (quiet ++ rest) ≡ wait_loop rest
unfolding wait_loop
wait_loop-quiet [] rest h = refl
wait_loop-quiet (endpoints slice ∷ quiet) rest h = rw h.0 (wait_loop-quiet quiet rest h.1)
wait_loop-quiet (other_object ∷ quiet) rest h = wait_loop-quiet quiet rest h
wait_loop-quiet (context_done ∷ quiet) rest h = absurd h

quiet_waits : (quiet : List Event) → AreQuiet quiet → wait_loop quiet ≡ waiting
unfolding wait_loop
quiet_waits [] h = refl
quiet_waits (endpoints slice ∷ quiet) h = rw h.0 (quiet_waits quiet h.1)
quiet_waits (other_object ∷ quiet) h = quiet_waits quiet h
quiet_waits (context_done ∷ quiet) h = absurd h

done_ends : (rest : List Event) → wait_loop (context_done ∷ rest) ≡ failed
unfolding wait_loop
done_ends rest = refl

active_ends :
    (slice : List Endpoint) (rest : List Event)
    → 0 < workload_active_endpoints slice
    → wait_loop (endpoints slice ∷ rest) ≡ ready true
unfolding wait_loop
active_ends slice rest h = rw (lt→ltb 0 (workload_active_endpoints slice) h) refl

-- For a workload with no active endpoint at first: however many quiet events come before, the first
-- slice with an active endpoint ends the wait as a cold start, and so no change after the watch began
-- is missed; the context's end before that ends it with an error; and without either it waits on.
pub forward_wait-first :
    (initial : List Endpoint) (quiet rest : List Event) (slice : List Endpoint)
    → workload_active_endpoints initial ≡ 0
    → AreQuiet quiet
    → 0 < workload_active_endpoints slice
    → (forward_wait true (some initial) (quiet ++ endpoints slice ∷ rest) ≡ ready true)
      × (forward_wait true (some initial) (quiet ++ context_done ∷ rest) ≡ failed)
      × (forward_wait true (some initial) quiet ≡ waiting)
unfolding forward_wait
forward_wait-first initial quiet rest slice h q a = rw h (
  wait_loop-quiet quiet (endpoints slice ∷ rest) q ∙ active_ends slice rest a,
  wait_loop-quiet quiet (context_done ∷ rest) q ∙ done_ends rest,
  quiet_waits quiet q,
)
