-- ===== src/Queue/Memory/Calls.antt =====
-- The queue counter through any sequence of calls.
use http_add_on.Prelude.{
  ℕ, ◌≤◌, ◌<◌, ◌≡◌, true, false, Option, none, some, arith, Bool-cases, Option-cases, inl, inr, ◌⊎◌,
}
use http_add_on.Prelude.Text.{Text}
use http_add_on.Prelude.Dict.{lookup, text_Eq}
use http_add_on.Prelude.Returns.{Returns, Returns-imp}
use http_add_on.Queue.Time.{second}
use http_add_on.Queue.Memory.{
  Memory, new_memory, is_some, ensure_key, update_buckets, increase, decrease, remove_key,
}
use http_add_on.Queue.Memory.Sound.{
  IsSound, HasKey, new_memory-IsSound, ensure_key_total, update_buckets_total, increase_total,
  increase_missing, decrease-IsSound, remove_key-IsSound,
}

pub data Call : Type 0 where
  ensures_key updates_buckets : Text → ℕ → ℕ → Call
  increases : Text → ℕ → ℕ → Call
  decreases : Text → ℕ → Call
  removes_key : Text → Call

abbrev pub apply : Memory → Call → Option Memory
apply r (ensures_key host window granularity) = ensure_key r host window granularity
apply r (updates_buckets host window granularity) = update_buckets r host window granularity
apply r (increases host delta now) = increase r host delta now
apply r (decreases host delta) = some (decrease r host delta)
apply r (removes_key host) = some (remove_key r host).0

-- A positive window and a granularity of at least a second.
abbrev pub IsValid : Call → Type 0
IsValid (ensures_key host window granularity) = (0 < window) × (second ≤ granularity)
IsValid (updates_buckets host window granularity) = (0 < window) × (second ≤ granularity)
IsValid (increases host delta now) = Unit
IsValid (decreases host delta) = Unit
IsValid (removes_key host) = Unit

-- An increase is for a host that is there.
abbrev pub IsAllowed : Memory → Call → Type 0
IsAllowed r (increases host delta now) = is_some (lookup host r.concurrent_map) ≡ true
IsAllowed r (ensures_key host window granularity) = Unit
IsAllowed r (updates_buckets host window granularity) = Unit
IsAllowed r (decreases host delta) = Unit
IsAllowed r (removes_key host) = Unit

pub data Reach : Memory → Type 0 where
  new : Reach new_memory
  called : {r s : Memory} (c : Call) → Reach r → IsValid c → apply r c ≡ some s → Reach s

apply_total :
    (r : Memory) (c : Call) → IsSound r → IsValid c → IsAllowed r c → Returns (apply r c) IsSound
apply_total r (ensures_key host window granularity) h v k =
    Returns-imp (ensure_key r host window granularity) (HasKey host) IsSound
      (ensure_key_total r host window granularity v.0 v.1 h) λ s x. x.sound
apply_total r (updates_buckets host window granularity) h v k =
    update_buckets_total r host window granularity v.0 v.1 h
apply_total r (increases host delta now) h v k = increase_total r host delta now h k
apply_total r (decreases host delta) h v k = decrease-IsSound r host delta h
apply_total r (removes_key host) h v k = remove_key-IsSound r host h

no_buckets :
    (r : Memory) (host : Text)
    → IsSound r
    → is_some (lookup host r.concurrent_map) ≡ false
    → lookup host r.rps_map ≡ none
no_buckets r host h k = elim (Option-cases (lookup host r.rps_map)) [
  | inl e ↦ e
  | inr (b, e) ↦ absurd (cc (rw e at (h.paired host), k))
]

-- A call that is not allowed panics.
apply_panics : (r : Memory) (c : Call) → IsSound r → ¬ (IsAllowed r c) → apply r c ≡ none
apply_panics r (increases host delta now) h k =
    increase_missing r host delta now (no_buckets r host h (ground (arith, k)))
apply_panics r (ensures_key host window granularity) h k = absurd (k tt)
apply_panics r (updates_buckets host window granularity) h k = absurd (k tt)
apply_panics r (decreases host delta) h k = absurd (k tt)
apply_panics r (removes_key host) h k = absurd (k tt)

IsAllowed-cases : (r : Memory) (c : Call) → IsAllowed r c ⊎ ¬ (IsAllowed r c)
IsAllowed-cases r (increases host delta now) =
    elim (Bool-cases (is_some (lookup host r.concurrent_map))) [
      | inl k ↦ inl k
      | inr k ↦ inr (λ e. cc)
    ]
IsAllowed-cases r (ensures_key host window granularity) = inl tt
IsAllowed-cases r (updates_buckets host window granularity) = inl tt
IsAllowed-cases r (decreases host delta) = inl tt
IsAllowed-cases r (removes_key host) = inl tt

after_call : (r s : Memory) (c : Call) → IsSound r → IsValid c → apply r c ≡ some s → IsSound s
after_call r s c h v e = elim (IsAllowed-cases r c) [
  | inl k ↦ rw e at (apply_total r c h v k)
  | inr k ↦ absurd (cc (apply_panics r c h k, e))
]

Reach-IsSound : {r : Memory} → Reach r → IsSound r
Reach-IsSound new = new_memory-IsSound
Reach-IsSound (called {r} {s} c w v e) = after_call r s c (Reach-IsSound w) v e

-- After any sequence of calls, with positive windows and granularities of at least a second, that has
-- not panicked: another such call does not panic and leaves the two maps with the same hosts, each
-- with buckets that do not panic; but an increase for a host that is not there does panic.
pub Reach-apply :
    (r : Memory) (c : Call)
    → Reach r
    → IsValid c
    → (IsAllowed r c → Returns (apply r c) IsSound) × (¬ (IsAllowed r c) → apply r c ≡ none)
Reach-apply r c w v = (apply_total r c (Reach-IsSound w) v, apply_panics r c (Reach-IsSound w))
