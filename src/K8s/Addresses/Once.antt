-- ===== src/K8s/Addresses/Once.antt =====
-- Which addresses are extracted.
use http_add_on.Prelude.{
  ◌≡◌, refl, ◌∙◌, Bool, true, false, not, ◌&&◌, ◌||◌, List, [], ◌∷◌, arith, if◌then◌else◌,
  Bool-cases, inl, inr,
}
use http_add_on.Prelude.Text.{Text, text_eq_iff, listed}
use http_add_on.Interceptor.Wait.{Endpoint, is_ready}
use http_add_on.Scaler.Pinger.{Endpoints}
use http_add_on.K8s.Addresses.{
  add_address, add_addresses, Sets, add_endpoint, add_endpoints, add_slices, extract_addresses,
}

-- No text stands twice.
unfoldable pub Once : List Text → Type 0
Once [] = Unit {0}
Once (a ∷ l) = (listed a l ≡ false) × Once l

listed-add_addresses :
    (n : Text) (l m : List Text) → listed n (add_addresses l m) ≡ (listed n l || listed n m)
unfolding add_addresses listed
listed-add_addresses n [] m = refl
listed-add_addresses n (a ∷ l) m =
    ground (arith, listed-add_addresses n l (add_address a m), text_eq_iff a n)

add_addresses-Once : (l m : List Text) → Once m → Once (add_addresses l m)
unfolding add_addresses Once
add_addresses-Once [] m h = h
add_addresses-Once (a ∷ l) m h = elim (Bool-cases (listed a m)) [
  | inl k ↦ rw k (add_addresses-Once l m h)
  | inr k ↦ rw k (add_addresses-Once l (a ∷ m) (k, h))
]

-- Whether an endpoint of the kind that `b` says, ready or not, has the address.
unfoldable pub has_address : Bool → Text → List Endpoint → Bool
has_address b n [] = false
has_address b n (e ∷ rest) =
    (if is_ready e then b else not b) && listed n e.addresses || has_address b n rest

unfoldable pub some_has : Bool → Text → List (List Endpoint) → Bool
some_has b n [] = false
some_has b n (slice ∷ slices) = has_address b n slice || some_has b n slices

pub record IsOf (slices : List (List Endpoint)) (e : Endpoints) : Type 0 where
  pub ready : (n : Text) → listed n e.ready_addresses ≡ some_has true n slices
  pub not_ready : (n : Text) → listed n e.not_ready_addresses ≡ some_has false n slices
  pub ready_once : Once e.ready_addresses
  pub not_ready_once : Once e.not_ready_addresses

abbrev of_kind : Bool → Sets → List Text
of_kind true sets = sets.ready
of_kind false sets = sets.not_ready

listed-add_endpoint :
    (b : Bool) (n : Text) (e : Endpoint) (sets : Sets)
    → listed n (of_kind b (add_endpoint e sets))
      ≡ ((if is_ready e then b else not b) && listed n e.addresses || listed n (of_kind b sets))
unfolding add_endpoint
listed-add_endpoint true n e sets = elim (Bool-cases (is_ready e)) [
  | inl k ↦ rw k (listed-add_addresses n e.addresses sets.ready)
  | inr k ↦ rw k refl
]
listed-add_endpoint false n e sets = elim (Bool-cases (is_ready e)) [
  | inl k ↦ rw k refl
  | inr k ↦ rw k (listed-add_addresses n e.addresses sets.not_ready)
]

listed-add_endpoints :
    (b : Bool) (n : Text) (l : List Endpoint) (sets : Sets)
    → listed n (of_kind b (add_endpoints l sets)) ≡ (has_address b n l || listed n (of_kind b sets))
unfolding add_endpoints has_address
listed-add_endpoints b n [] sets = refl
listed-add_endpoints b n (e ∷ l) sets =
    ground (arith, listed-add_endpoints b n l (add_endpoint e sets), listed-add_endpoint b n e sets)

listed-add_slices :
    (b : Bool) (n : Text) (l : List (List Endpoint)) (sets : Sets)
    → listed n (of_kind b (add_slices l sets)) ≡ (some_has b n l || listed n (of_kind b sets))
unfolding add_slices some_has
listed-add_slices b n [] sets = refl
listed-add_slices b n (slice ∷ l) sets =
    ground (
      arith,
      listed-add_slices b n l (add_endpoints slice sets),
      listed-add_endpoints b n slice sets,
    )

abbrev BothOnce : Sets → Type 0
BothOnce sets = Once sets.ready × Once sets.not_ready

add_endpoint-BothOnce :
    (e : Endpoint) (sets : Sets) → BothOnce sets → BothOnce (add_endpoint e sets)
unfolding add_endpoint
add_endpoint-BothOnce e sets (r, n) = elim (Bool-cases (is_ready e)) [
  | inl k ↦ rw k (add_addresses-Once e.addresses sets.ready r, n)
  | inr k ↦ rw k (r, add_addresses-Once e.addresses sets.not_ready n)
]

add_endpoints-BothOnce :
    (l : List Endpoint) (sets : Sets) → BothOnce sets → BothOnce (add_endpoints l sets)
unfolding add_endpoints
add_endpoints-BothOnce [] sets h = h
add_endpoints-BothOnce (e ∷ l) sets h =
    add_endpoints-BothOnce l (add_endpoint e sets) (add_endpoint-BothOnce e sets h)

add_slices-BothOnce :
    (l : List (List Endpoint)) (sets : Sets) → BothOnce sets → BothOnce (add_slices l sets)
unfolding add_slices
add_slices-BothOnce [] sets h = h
add_slices-BothOnce (slice ∷ l) sets h =
    add_slices-BothOnce l (add_endpoints slice sets) (add_endpoints-BothOnce slice sets h)

or_false : (b : Bool) → (b || false) ≡ b
or_false true = refl
or_false false = refl

-- The addresses that are extracted as ready are those of some ready endpoint of some slice, those
-- that are extracted as not ready are those of some endpoint that is not, and none is extracted twice.
pub extract_addresses-IsOf :
    (slices : List (List Endpoint)) → IsOf slices (extract_addresses slices)
unfolding extract_addresses Once listed
extract_addresses-IsOf slices =
    let empty : Sets = record { ready = []; not_ready = [] } in
    let (r, n) = add_slices-BothOnce slices empty (tt, tt) in
    record {
      ready = λ a. listed-add_slices true a slices empty ∙ or_false (some_has true a slices);
      not_ready = λ a. listed-add_slices false a slices empty ∙ or_false (some_has false a slices);
      ready_once = r;
      not_ready_once = n;
    }
