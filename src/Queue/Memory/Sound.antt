-- ===== src/Queue/Memory/Sound.antt =====
-- The two maps of the counter hold the same hosts, and every host has buckets that do not panic.
use http_add_on.Prelude.{
  ℕ, ◌≤◌, ◌<◌, ◌≡◌, refl, sym, ◌∙◌, true, false, none, some, arith, Option-cases, Bool-cases, inl,
  inr,
}
use http_add_on.Prelude.Text.{Text, text_eq_iff, text_eq_self}
use http_add_on.Prelude.Dict.{Dict, lookup, insert, remove, text_Eq, lookup-insert, lookup-remove}
use http_add_on.Prelude.Returns.{Returns, Returns-if, Returns-bind}
use http_add_on.Prelude.Word.{add64}
use http_add_on.Queue.Time.{second}
use http_add_on.Queue.Buckets.{RequestsBuckets, record_value, new_requests_buckets}
use http_add_on.Queue.Buckets.Healthy.{IsHealthy, record_value_total, new_requests_buckets_total}
use http_add_on.Queue.Memory.{
  Memory, new_memory, is_some, get_or_zero, increase, decrease, clamped, ensure_concurrency,
  ensure_buckets, ensure_key, differs, change_buckets, update_buckets, remove_key,
}

pub record IsSound (r : Memory) : Type 0 where
  pub paired :
      (host : Text) → is_some (lookup host r.concurrent_map) ≡ is_some (lookup host r.rps_map)
  pub healthy : (host : Text) (b : RequestsBuckets) → lookup host r.rps_map ≡ some b → IsHealthy b

pub new_memory-IsSound : IsSound new_memory
unfolding new_memory lookup
new_memory-IsSound = record { paired = λ host. refl; healthy = λ host b e. cc }

-- New buckets for a host keep the others.
insert-IsHealthy :
    (m : Dict Text RequestsBuckets) (k : Text) (v : RequestsBuckets)
    → ((host : Text) (b : RequestsBuckets) → lookup host m ≡ some b → IsHealthy b)
    → IsHealthy v
    → (host : Text) (b : RequestsBuckets) → lookup host (insert k v m) ≡ some b
    → IsHealthy b
insert-IsHealthy m k v h hv host b e = ground (arith, lookup-insert k host v m, h host b)

remove-IsHealthy :
    (m : Dict Text RequestsBuckets) (k : Text)
    → ((host : Text) (b : RequestsBuckets) → lookup host m ≡ some b → IsHealthy b)
    → (host : Text) (b : RequestsBuckets) → lookup host (remove k m) ≡ some b
    → IsHealthy b
remove-IsHealthy m k h host b e = ground (arith, lookup-remove k host m, h host b)

-- A host that is set in both maps keeps them paired.
insert_paired :
    {A B : Type 0} (c : Dict Text A) (m : Dict Text B) (k : Text) (x : A) (y : B)
    → ((host : Text) → is_some (lookup host c) ≡ is_some (lookup host m))
    → (host : Text) → is_some (lookup host (insert k x c)) ≡ is_some (lookup host (insert k y m))
insert_paired c m k x y h host =
    rw (lookup-insert k host x c, lookup-insert k host y m) (ground (arith, h host))

-- A new value for a host that is there changes no key.
insert_present :
    {A : Type 0} (c : Dict Text A) (k : Text) (x : A)
    → is_some (lookup k c) ≡ true
    → (host : Text) → is_some (lookup host (insert k x c)) ≡ is_some (lookup host c)
insert_present c k x h host = ground (arith, lookup-insert k host x c, text_eq_iff k host)

-- `Decrease` keeps the counter sound, whatever the host.
pub decrease-IsSound :
    (r : Memory) (host : Text) (delta : ℕ) → IsSound r → IsSound (decrease r host delta)
unfolding decrease
decrease-IsSound r host delta h = elim (Option-cases (lookup host r.concurrent_map)) [
  | inl missing ↦ rw (missing, decrease) h
  | inr (current, found) ↦
      rw (found, decrease)
        (record {
          paired = λ k.
              insert_present r.concurrent_map host (clamped current delta) (rw found) k
              ∙ h.paired k;
          healthy = h.healthy;
        })
]

pub remove_key-IsSound : (r : Memory) (host : Text) → IsSound r → IsSound (remove_key r host).0
unfolding remove_key
remove_key-IsSound r host h = record {
  paired = λ k.
      ground
        (arith, lookup-remove host k r.concurrent_map, lookup-remove host k r.rps_map, h.paired k);
  healthy = remove-IsHealthy r.rps_map host h.healthy;
}

-- Sound, and with the host in both maps.
pub record HasKey (host : Text) (r : Memory) : Type 0 where
  pub sound : IsSound r
  pub present : is_some (lookup host r.rps_map) ≡ true

-- `EnsureKey` of a sound counter does not panic for a positive window and a granularity of at least
-- a second; the counter is sound after, and has the host.
pub ensure_key_total :
    (r : Memory) (host : Text) (window granularity : ℕ)
    → 0 < window
    → second ≤ granularity
    → IsSound r
    → Returns (ensure_key r host window granularity) (HasKey host)
unfolding ensure_key ensure_concurrency ensure_buckets
ensure_key_total r host window granularity hw hg h =
    elim (Bool-cases (is_some (lookup host r.concurrent_map))) [
      | inl there ↦
          let there' : is_some (lookup host r.rps_map) ≡ true = sym (h.paired host) ∙ there in
          rw (there, there') (record { sound = h; present = there' })
      | inr new ↦
          let new' : is_some (lookup host r.rps_map) ≡ false = sym (h.paired host) ∙ new in
          rw (new, new')
            (Returns-bind (new_requests_buckets window granularity) _ IsHealthy (HasKey host)
              (new_requests_buckets_total window granularity hw hg)
              λ buckets fresh. record {
                sound = record {
                  paired = insert_paired r.concurrent_map r.rps_map host 0 buckets h.paired;
                  healthy = insert-IsHealthy r.rps_map host buckets h.healthy fresh;
                };
                present = rw (lookup-insert, text_eq_self host);
              })
    ]

pub lookup-IsHealthy :
    (r : Memory) (host : Text)
    → IsSound r
    → is_some (lookup host r.concurrent_map) ≡ true
    → Returns (lookup host r.rps_map) IsHealthy
lookup-IsHealthy r host h there = elim (Option-cases (lookup host r.rps_map)) [
  | inl missing ↦ absurd (cc (h.paired host))
  | inr (b, found) ↦ rw found (h.healthy host b found)
]

-- On a sound counter, `Increase` of a host that it has does not panic and leaves a sound counter.
pub increase_total :
    (r : Memory) (host : Text) (delta now : ℕ)
    → IsSound r
    → is_some (lookup host r.concurrent_map) ≡ true
    → Returns (increase r host delta now) IsSound
unfolding increase
increase_total r host delta now h there =
    let count = add64 (get_or_zero (lookup host r.concurrent_map)) delta in
    Returns-bind (lookup host r.rps_map) _ IsHealthy IsSound (lookup-IsHealthy r host h there)
      λ buckets healthy.
        Returns-bind (record_value buckets now delta) _ IsHealthy IsSound
          (record_value_total buckets now delta healthy)
          λ recorded fresh. record {
            paired = insert_paired r.concurrent_map r.rps_map host count recorded h.paired;
            healthy = insert-IsHealthy r.rps_map host recorded h.healthy fresh;
          }

-- `Increase` of a host that has no buckets panics: it is called through a nil pointer.
pub increase_missing :
    (r : Memory) (host : Text) (delta now : ℕ)
    → lookup host r.rps_map ≡ none
    → increase r host delta now ≡ none
unfolding increase
increase_missing r host delta now h = rw h

-- New buckets, or those that the host has.
change_buckets_total :
    (r : Memory) (host : Text) (window granularity : ℕ)
    → 0 < window
    → second ≤ granularity
    → IsSound r
    → Returns (change_buckets r host window granularity) IsSound
unfolding change_buckets
change_buckets_total r host window granularity hw hg h =
    elim (Option-cases (lookup host r.rps_map)) [
      | inl missing ↦ rw missing h
      | inr (buckets, there) ↦ rw there (
          Returns-if IsSound (differs buckets window granularity) _ _
            (λ _.
              Returns-bind (new_requests_buckets window granularity) _ IsHealthy IsSound
                (new_requests_buckets_total window granularity hw hg)
                λ fresh healthy. record {
                  paired = λ k. h.paired k ∙ sym (insert_present r.rps_map host fresh (rw there) k);
                  healthy = insert-IsHealthy r.rps_map host fresh h.healthy healthy;
                })
            (λ _. h))
    ]

-- `UpdateBuckets` of a sound counter does not panic for a positive window and a granularity of at
-- least a second, and leaves a sound counter.
pub update_buckets_total :
    (r : Memory) (host : Text) (window granularity : ℕ)
    → 0 < window
    → second ≤ granularity
    → IsSound r
    → Returns (update_buckets r host window granularity) IsSound
unfolding update_buckets
update_buckets_total r host window granularity hw hg h =
    Returns-bind (ensure_key r host window granularity) _ (HasKey host) IsSound
      (ensure_key_total r host window granularity hw hg h)
      λ ensured k. change_buckets_total ensured host window granularity hw hg k.sound
