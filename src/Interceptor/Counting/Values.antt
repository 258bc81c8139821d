-- ===== src/Interceptor/Counting/Values.antt =====
-- What the operations of the counter do to the value that it has for a host.
use http_add_on.Prelude.{
  ℕ, suc, ◌+◌, ◌-◌, ◌≤◌, ◌<◌, ◌≡◌, refl, sym, ap, ◌∙◌, true, false, Option, none, some, List, [],
  ◌∷◌, ◌++◌, length, if◌then◌else◌, arith, Bool-cases, Option-cases, inl, inr,
}
use http_add_on.Prelude.Text.{Text, text_eq, text_eq_iff}
use http_add_on.Prelude.Word.{add64, word_mod, int_min}
use http_add_on.Prelude.Dict.{Dict, lookup, insert, text_Eq, lookup-insert}
use http_add_on.Queue.Buckets.{record_value, new_requests_buckets}
use http_add_on.Queue.Memory.{
  Memory, increase, decrease, clamped, ensure_key, ensure_buckets, ensure_concurrency,
  change_buckets, differs, is_some, get_or_zero,
}
use http_add_on.Interceptor.Counting.{Counting, inc, record_pending_request_count}

-- How many requests for a host wait.
unfoldable pub in_flight : Text → List Text → ℕ
in_flight host [] = 0
in_flight host (key ∷ rest) = (if text_eq key host then 1 else 0) + in_flight host rest

abbrev pub value : Text → Dict Text ℕ → ℕ
value host d = get_or_zero (lookup host d)

pub in_flight-append :
    (host : Text) (a : List Text) (key : Text) (b : List Text)
    → in_flight host (a ++ key ∷ b) ≡ (if text_eq key host then 1 else 0) + in_flight host (a ++ b)
unfolding in_flight
in_flight-append host [] key b = refl
in_flight-append host (x ∷ a) key b = omega (arith, in_flight-append host a key b)

pub length-middle :
    (a : List Text) (key : Text) (b : List Text) → length (a ++ key ∷ b) ≡ suc (length (a ++ b))
length-middle [] key b = refl
length-middle (x ∷ a) key b = omega (arith, length-middle a key b)

pub in_flight_bound : (host : Text) (l : List Text) → in_flight host l ≤ length l
unfolding in_flight
in_flight_bound host [] = omega arith
in_flight_bound host (x ∷ l) = ground (arith, in_flight_bound host l)

pub value-insert :
    (host key : Text) (n : ℕ) (d : Dict Text ℕ)
    → value host (insert key n d) ≡ (if text_eq key host then n else value host d)
value-insert host key n d = ap get_or_zero (lookup-insert key host n d) ∙ ground arith

pub value_of_equal :
    (host key : Text) (d : Dict Text ℕ) → text_eq key host ≡ true → value key d ≡ value host d
value_of_equal host key d h = ap (λ k. value k d) ((text_eq_iff key host).0 h)

abbrev concurrent_or_nil : Option Memory → Dict Text ℕ
concurrent_or_nil none = []
concurrent_or_nil (some m) = m.concurrent_map

increase-map :
    (r m : Memory) (key : Text) (now : ℕ)
    → increase r key 1 now ≡ some m
    → m.concurrent_map ≡ insert key (add64 (value key r.concurrent_map) 1) r.concurrent_map
unfolding increase
increase-map r m key now e = elim (Option-cases (lookup key r.rps_map)) [
  | inl k ↦ absurd (cc (rw k at e))
  | inr (b, k) ↦ elim (Option-cases (record_value b now 1)) [
    | inl k' ↦ absurd (cc (rw (k, k') at e))
    | inr (b', k') ↦ sym (ap concurrent_or_nil (rw (k, k') at e))
  ]
]

-- One more for the key.
pub value-add :
    (host key : Text) (d : Dict Text ℕ) (rest : List Text)
    → value host d ≡ in_flight host rest
    → value key d ≡ in_flight key rest
    → suc (length rest) < int_min
    → value host (insert key (add64 (value key d) 1) d) ≡ in_flight host (key ∷ rest)
unfolding in_flight
value-add host key d rest h k b = ground (
  arith,
  value-insert host key (add64 (value key d) 1) d,
  value_of_equal host key d,
  in_flight_bound key rest,
  in_flight_bound host rest,
)

present : (key : Text) (d : Dict Text ℕ) (n : ℕ) → value key d ≡ suc n → lookup key d ≡ some (suc n)
present key d n h = elim (Option-cases (lookup key d)) [
  | inl e ↦ absurd (omega (arith, rw e at h))
  | inr (m, e) ↦ e ∙ ap some (rw e at h)
]

-- One less for a key that has one.
pub decrease-value :
    (host key : Text) (r : Memory) (n : ℕ)
    → value key r.concurrent_map ≡ suc n
    → n < int_min
    → value host (decrease r key 1).concurrent_map
      ≡ (if text_eq key host then n else value host r.concurrent_map)
unfolding decrease
decrease-value host key r n h b =
    rw (present key r.concurrent_map n h, decrease)
      (value-insert host key (clamped (suc n) 1) r.concurrent_map ∙ ground arith)

pub metric-value :
    (host key : Text) (d : Dict Text ℕ) (n : ℕ)
    → value key d ≡ suc n
    → n < int_min
    → value host (record_pending_request_count d key (word_mod - 1))
      ≡ (if text_eq key host then n else value host d)
metric-value host key d n h b =
    value-insert host key (add64 (value key d) (word_mod - 1)) d ∙ ground arith

pub left :
    (host key : Text) (before after : List Text) (x : ℕ)
    → x ≡ in_flight host (before ++ key ∷ after)
    → (if text_eq key host then in_flight key (before ++ after) else x)
      ≡ in_flight host (before ++ after)
left host key before after x hx =
    ground (arith, in_flight-append host before key after, text_eq_iff key host)

ensure-map :
    (r m : Memory) (key : Text) (window granularity : ℕ)
    → ensure_buckets r key window granularity ≡ some m
    → m.concurrent_map ≡ r.concurrent_map
unfolding ensure_buckets
ensure-map r m key window granularity e = elim (Bool-cases (is_some (lookup key r.rps_map))) [
  | inl k ↦ sym (ap concurrent_or_nil (rw k at e))
  | inr k ↦ elim (Option-cases (new_requests_buckets window granularity)) [
    | inl k' ↦ absurd (cc (rw (k, k') at e))
    | inr (b, k') ↦ sym (ap concurrent_or_nil (rw (k, k') at e))
  ]
]

missing_zero : (key : Text) (d : Dict Text ℕ) → is_some (lookup key d) ≡ false → value key d ≡ 0
missing_zero key d h = elim (Option-cases (lookup key d)) [
  | inl e ↦ rw e refl
  | inr (n, e) ↦ absurd (cc (rw e at h))
]

concurrency-value :
    (host key : Text) (r : Memory)
    → value host (ensure_concurrency r key).concurrent_map ≡ value host r.concurrent_map
unfolding ensure_concurrency
concurrency-value host key r = elim (Bool-cases (is_some (lookup key r.concurrent_map))) [
  | inl k ↦ rw k refl
  | inr k ↦ rw k (
      value-insert host key 0 r.concurrent_map
      ∙ ground
          (arith, missing_zero key r.concurrent_map k, value_of_equal host key r.concurrent_map))
]

pub ensure-value :
    (host key : Text) (r m : Memory) (window granularity : ℕ)
    → ensure_key r key window granularity ≡ some m
    → value host m.concurrent_map ≡ value host r.concurrent_map
unfolding ensure_key
ensure-value host key r m window granularity e =
    ap (value host) (ensure-map (ensure_concurrency r key) m key window granularity e)
    ∙ concurrency-value host key r

pub change-value :
    (host key : Text) (r m : Memory) (window granularity : ℕ)
    → change_buckets r key window granularity ≡ some m
    → value host m.concurrent_map ≡ value host r.concurrent_map
unfolding change_buckets
change-value host key r m window granularity e =
    ap (value host) (elim (Option-cases (lookup key r.rps_map)) [
      | inl k ↦ sym (ap concurrent_or_nil (rw k at e))
      | inr (b, k) ↦ elim (Bool-cases (differs b window granularity)) [
        | inr k' ↦ sym (ap concurrent_or_nil (rw (k, k') at e))
        | inl k' ↦ elim (Option-cases (new_requests_buckets window granularity)) [
          | inl k'' ↦ absurd (cc (rw (k, k', k'') at e))
          | inr (fresh, k'') ↦ sym (ap concurrent_or_nil (rw (k, k', k'') at e))
        ]
      ]
    ])

abbrev counting_or : Counting → Option Counting → Counting
counting_or c none = c
counting_or c (some d) = d

pub inc-parts :
    (c d : Counting) (key : Text) (now : ℕ)
    → inc c key now ≡ some d
    → (d.queue_counter.concurrent_map
        ≡ insert key
            (add64 (value key c.queue_counter.concurrent_map) 1)
            c.queue_counter.concurrent_map)
      × (d.pending_requests ≡ record_pending_request_count c.pending_requests key 1)
unfolding inc
inc-parts c d key now e = elim (Option-cases (increase c.queue_counter key 1 now)) [
  | inl k ↦ absurd (cc (rw k at e))
  | inr (m, k) ↦
      let f = ap (counting_or c) (rw k at e) in
      (
        sym (ap (λ x. x.queue_counter.concurrent_map) f) ∙ increase-map c.queue_counter m key now k,
        sym (ap (λ x. x.pending_requests) f),
      )
]
