-- ===== src/Operator/Finalizer.antt =====
-- operator/controllers/http/finalizer.go, without the client's calls, which are in Reconcile.

pub mod Once
use http_add_on.Prelude.{
  ℕ, zero, suc, ◌+◌, ◌-◌, Bool, true, false, Option, none, some, List, [], ◌∷◌, ◌++◌, leb,
  if◌then◌else◌, length, get_elem?, take, drop,
}
use http_add_on.Prelude.Text.{Text, text_eq, codes}

abbrev pub http_scaled_object_finalizer : Text
http_scaled_object_finalizer = codes "httpscaledobject.http.keda.sh"

unfoldable pub contains : List Text → Text → Bool
contains [] s = false
contains (v ∷ list) s = if text_eq v s then true else contains list s

-- `append(list[:i], list[i+1:]...)` on the array behind a slice of `len` elements: what stands behind
-- `i` moves one down, and the array keeps its last element. A bound past the slice's end panics.
unfoldable pub delete_at : ℕ → ℕ → List Text → Option (List Text × ℕ)
delete_at i len array =
    if leb (i + 1) len
    then some (take i array ++ (drop (i + 1) (take len array) ++ drop (len - 1) array), len - 1)
    else none

-- The loop ranges over the slice as it was at the start, so `array` is read at every index of it.
unfoldable pub remove_loop : ℕ → ℕ → ℕ → List Text → Text → Option (List Text)
remove_loop zero i len array s = some (take len array)
remove_loop (suc steps) i len array s = elim (get_elem? array i) [
  | none ↦ none
  | some v ↦
      if text_eq v s
      then elim (delete_at i len array) [
        | none ↦ none
        | some (array', len') ↦ remove_loop steps (i + 1) len' array' s
      ]
      else remove_loop steps (i + 1) len array s
]

-- `none` is a panic.
unfoldable pub remove : List Text → Text → Option (List Text)
remove list s = remove_loop (length list) 0 (length list) list s
