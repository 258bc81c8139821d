-- ===== src/Interceptor/Counting/Fine.antt =====
-- The counter's `Increase` for a host whose buckets are finer than a second.
use http_add_on.Prelude.{
  ℕ, Bool, true, false, Option, ◌<◌, ◌≡◌, refl, ap, not, none, some, arith, ◌==◌, Option-cases,
  Bool-cases, inl, inr,
}
use http_add_on.Prelude.Text.{Text, text_eq_self}
use http_add_on.Prelude.Dict.{Dict, lookup, insert, text_Eq, lookup-insert, lookup-remove}
use http_add_on.Prelude.Returns.{Ensures, Ensures_any, Ensures-if, Ensures-bind, Ensures-eq}
use http_add_on.Queue.Time.{second}
use http_add_on.Queue.Buckets.{RequestsBuckets, new_requests_buckets}
use http_add_on.Queue.Buckets.Record.{record_value-panics}
use http_add_on.Queue.Memory.{
  Memory, increase, change_buckets, differs, update_buckets, ensure_key, remove_key,
}
use http_add_on.Api.{HttpScaledObject, NamespacedName, to_string}
use http_add_on.Routing.Radix.{Radix}
use http_add_on.Routing.Table.{Table, on_update, update_write, drop_old, windows, raise, name_Eq}
use http_add_on.Routing.Memory.{name_eq}
use http_add_on.Interceptor.Counting.{inc}

-- An increase for the host panics, whenever it comes.
abbrev pub Panics : Text → Memory → Type 0
Panics host r = (delta now : ℕ) → increase r host delta now ≡ none

-- Its buckets, if it has any, have a granularity below a second.
abbrev IsFine : Text → Memory → Type 0
IsFine host r = (b : RequestsBuckets) → lookup host r.rps_map ≡ some b → b.granularity < second

IsFine-Panics : (host : Text) (r : Memory) → IsFine host r → Panics host r
unfolding increase
IsFine-Panics host r h delta now = elim (Option-cases (lookup host r.rps_map)) [
  | inl missing ↦ rw missing refl
  | inr (b, found) ↦ rw (found, record_value-panics b now delta (h b found)) refl
]

new_buckets-granularity :
    (window granularity : ℕ)
    → Ensures (new_requests_buckets window granularity) (λ b. b.granularity ≡ granularity)
unfolding new_requests_buckets
new_buckets-granularity window granularity =
    Ensures-if (λ b. b.granularity ≡ granularity) (granularity == 0) none _ (λ _. tt) (λ _. refl)

change_buckets-IsFine :
    (r : Memory) (host : Text) (window granularity : ℕ)
    → granularity < second
    → Ensures (change_buckets r host window granularity) (IsFine host)
unfolding change_buckets
change_buckets-IsFine r host window granularity fine = elim (Option-cases (lookup host r.rps_map)) [
  | inl missing ↦ rw missing (λ b e. absurd (cc))
  | inr (old, found) ↦ elim (Bool-cases (differs old window granularity)) [
    | inl other ↦
        rw (found, other)
          (Ensures-bind (new_requests_buckets window granularity) _
            (λ b. b.granularity ≡ granularity) (IsFine host)
            (new_buckets-granularity window granularity)
            λ fresh g b e.
              let k : some fresh ≡ some b =
                rw (lookup-insert host host fresh r.rps_map, text_eq_self host) at e in
              let q : fresh ≡ b = cc in rw (← q) (omega (arith, g, fine)))
    | inr same ↦ rw (found, same) (λ b e. ground (arith, found, same, e))
  ]
]

update_buckets-IsFine :
    (r : Memory) (host : Text) (window granularity : ℕ)
    → granularity < second
    → Ensures (update_buckets r host window granularity) (IsFine host)
unfolding update_buckets
update_buckets-IsFine r host window granularity fine =
    Ensures-bind (ensure_key r host window granularity) _ (λ m. Unit {0}) (IsFine host)
      (Ensures_any _) λ m x. change_buckets-IsFine m host window granularity fine

drop_old-IsFine :
    (rt : Radix HttpScaledObject) (b : Bool) (k : NamespacedName)
    (objects : Dict NamespacedName HttpScaledObject) (host : Text) (r : Memory)
    → IsFine host r
    → IsFine host (drop_old rt b k objects r).1
unfolding remove_key
drop_old-IsFine rt false k objects host r h = h
drop_old-IsFine rt true k objects host r h =
    λ b e. h b (ground (arith, lookup-remove (to_string k) host r.rps_map, e))

update_write-IsFine :
    (rt : Radix HttpScaledObject) (t : Table rt) (old new : HttpScaledObject)
    → (windows new).1 < second
    → Ensures (update_write rt t old new) (λ u. IsFine (to_string new.key) u.queue_counter)
unfolding update_write
update_write-IsFine rt t old new fine =
    let key = to_string new.key in
    let Q : Table rt → Type 0 = λ u. IsFine key u.queue_counter in
    Ensures-bind (update_buckets t.queue_counter key (windows new).0 (windows new).1) _ (IsFine key)
      Q (update_buckets-IsFine t.queue_counter key (windows new).0 (windows new).1 fine)
      λ r h.
        drop_old-IsFine rt (not (name_eq old.key new.key)) old.key
          (insert new.key new t.http_scaled_objects) key r h

abbrev counter_or : {rt : Radix HttpScaledObject} → Memory → Option (Table rt) → Memory
counter_or m none = m
counter_or m (some t) = t.queue_counter

-- An object whose rate has a granularity below a second: once the routing table has handled an update
-- to it, counting a request for it panics, in whatever state the counter was before, whatever the
-- metric, and at any time.
pub inc-on_update :
    (rt : Radix HttpScaledObject) (t u : Table rt) (old new : HttpScaledObject)
    (pending_requests : Dict Text ℕ) (now : ℕ)
    → (windows new).1 < second
    → on_update rt t (some old) (some new) ≡ some u
    → inc
        (record { queue_counter = u.queue_counter; pending_requests = pending_requests })
        (to_string new.key)
        now
      ≡ none
unfolding inc on_update http_add_on.Routing.Table.raise
inc-on_update rt t u old new pending_requests now fine e =
    elim (Option-cases (update_write rt t old new)) [
      | inl failed ↦ let f : none ≡ some u = rw failed at e in absurd (cc)
      | inr (v, written) ↦
          let f : some (raise rt v) ≡ some u = rw written at e in
          let counter : v.queue_counter ≡ u.queue_counter =
            ap (λ (o : Option (Table rt)). counter_or v.queue_counter o) f in
          let fine_now =
            Ensures-eq (update_write rt t old new) (λ x. IsFine (to_string new.key) x.queue_counter)
              v (update_write-IsFine rt t old new fine) written in
          rw (← counter)
            (rw (IsFine-Panics (to_string new.key) v.queue_counter fine_now 1 now) refl)
    ]
