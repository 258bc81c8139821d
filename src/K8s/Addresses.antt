-- ===== src/K8s/Addresses.antt =====
-- `extractAddresses` and the functions that list the slices of a service, of pkg/k8s/endpoints.go. A
-- set of addresses is a list in which each stands once, in an order of its own.

pub mod Once
use http_add_on.Prelude.{
  Bool, true, false, Option, none, some, List, [], ◌∷◌, ◌++◌, ◌>>=◌, if◌then◌else◌,
}
use http_add_on.Prelude.Text.{Text, listed}
use http_add_on.Interceptor.Wait.{Endpoint, is_ready}
use http_add_on.Scaler.Pinger.{Endpoints}

-- `m[a] = true`
abbrev pub add_address : Text → List Text → List Text
add_address a m = if listed a m then m else a ∷ m

unfoldable pub add_addresses : List Text → List Text → List Text
add_addresses [] m = m
add_addresses (a ∷ addresses) m = add_addresses addresses (add_address a m)

pub record Sets : Type 0 where
  pub ready : List Text
  pub not_ready : List Text

unfoldable pub add_endpoint : Endpoint → Sets → Sets
add_endpoint e sets =
    if is_ready e
    then record sets { ready = add_addresses e.addresses sets.ready }
    else record sets { not_ready = add_addresses e.addresses sets.not_ready }

unfoldable pub add_endpoints : List Endpoint → Sets → Sets
add_endpoints [] sets = sets
add_endpoints (e ∷ rest) sets = add_endpoints rest (add_endpoint e sets)

unfoldable pub add_slices : List (List Endpoint) → Sets → Sets
add_slices [] sets = sets
add_slices (slice ∷ slices) sets = add_slices slices (add_endpoints slice sets)

unfoldable pub extract_addresses : List (List Endpoint) → Endpoints
extract_addresses slices =
    let sets = add_slices slices (record { ready = []; not_ready = [] }) in
    record { ready_addresses = sets.ready; not_ready_addresses = sets.not_ready }

-- The endpoints of a service, out of the API's list of its slices; `none` is an error.
unfoldable pub endpoints_func : Option (List (List Endpoint)) → Option Endpoints
endpoints_func slices = do items ← slices; some (extract_addresses items)
