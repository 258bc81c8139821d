-- ===== src/K8s/EndpointsCache.antt =====
-- pkg/k8s/endpoints_cache_informer.go: what of the informer's events reaches the watch of a service.
-- The informer and its lister are arguments; the broadcaster gives every event to every watch.

pub mod Waiting
use http_add_on.Prelude.{Bool, ◌&&◌, Option, none, some, List, [], ◌∷◌, ◌++◌, if◌then◌else◌, map}
use http_add_on.Prelude.Text.{Text, text_eq}
use http_add_on.Interceptor.Wait.{Endpoint, Event, endpoints}

pub record EndpointSlice : Type 0 where
  pub namespace : Text
  -- the label for the service's name, empty if it has none
  pub service_name : Text
  pub endpoints : List Endpoint

-- `Get`: the first of the slices that the lister has for the service; `none` is an error.
abbrev pub first_slice : Option (List EndpointSlice) → Option EndpointSlice
first_slice none = none
first_slice (some []) = none
first_slice (some (slice ∷ rest)) = some slice

unfoldable pub get :
    (Text → Text → Option (List EndpointSlice)) → Text → Text → Option EndpointSlice
get lister ns name = first_slice (lister ns name)

pub data EventType : Type 0 where
  added modified deleted : EventType

abbrev pub Broadcast : Type 0
Broadcast = EventType × EndpointSlice

-- A call of a handler by the informer; `none` is an object of another type, such as the mark for a
-- deletion that was missed.
pub data Informed : Type 0 where
  adds : Option EndpointSlice → Informed
  updates : Option EndpointSlice → Option EndpointSlice → Informed
  deletes : Option EndpointSlice → Informed

abbrev pub action : EventType → Option EndpointSlice → List Broadcast
action t none = []
action t (some slice) = (t, slice) ∷ []

abbrev pub add_evt_handler : Option EndpointSlice → List Broadcast
add_evt_handler obj = action added obj

abbrev pub update_evt_handler : Option EndpointSlice → Option EndpointSlice → List Broadcast
update_evt_handler old_obj new_obj = action modified new_obj

abbrev pub delete_evt_handler : Option EndpointSlice → List Broadcast
delete_evt_handler obj = action deleted obj

unfoldable pub broadcasts : List Informed → List Broadcast
broadcasts [] = []
broadcasts (adds obj ∷ rest) = add_evt_handler obj ++ broadcasts rest
broadcasts (updates old_obj new_obj ∷ rest) = update_evt_handler old_obj new_obj ++ broadcasts rest
broadcasts (deletes obj ∷ rest) = delete_evt_handler obj ++ broadcasts rest

abbrev pub is_of : Text → Text → EndpointSlice → Bool
is_of ns name slice = text_eq slice.namespace ns && text_eq slice.service_name name

-- `Watch`, as a filter of the broadcast events.
unfoldable pub watch : Text → Text → List Broadcast → List Broadcast
watch ns name [] = []
watch ns name ((t, slice) ∷ rest) =
    let filtered = watch ns name rest in
    if is_of ns name slice then (t, slice) ∷ filtered else filtered

-- What the wait function sees of them, which reads no event's type.
abbrev pub seen : List Broadcast → List Event
seen l = map (λ b. endpoints b.1.endpoints) l
