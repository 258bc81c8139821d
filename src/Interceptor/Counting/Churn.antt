-- ===== src/Interceptor/Counting/Churn.antt =====
-- The counter while hosts are removed and added again, too, as when an object is deleted and created
-- anew while its requests wait.
use http_add_on.Prelude.{
  ℕ, suc, ◌-◌, ◌≤◌, ◌<◌, ◌≡◌, refl, ap, ◌∙◌, some, List, ◌∷◌, ◌++◌, length, if◌then◌else◌, arith,
  Option-cases, inl, inr,
}
use http_add_on.Prelude.Text.{Text, text_eq, text_eq_iff, text_eq_self}
use http_add_on.Prelude.Word.{add64, int_min}
use http_add_on.Prelude.Dict.{Dict, lookup, insert, text_Eq, lookup-remove}
use http_add_on.Queue.Memory.{Memory, new_memory, get_or_zero, decrease, clamped, remove_key}
use http_add_on.Interceptor.Counting.{Counting, inc, dec}
use http_add_on.Interceptor.Counting.Values.{
  ensure-value, in_flight, in_flight-append, in_flight_bound, inc-parts, left, length-middle,
  metric-value, change-value, value, value-add, value-insert, value_of_equal,
}
use http_add_on.Interceptor.Counting.Balance
use http_add_on.Interceptor.Counting.Balance.{World, start, with_queue, concurrency, pending}

-- A step of the counter, or the routing table removes a host.
pub data Step (w v : World) : Type 0 where
  counted : Balance.Step w v → Step w v
  removed : (key : Text) → v ≡ with_queue w (remove_key w.counting.queue_counter key).0 → Step w v

pub data Reach : World → Type 0 where
  started : Reach start
  next : {w v : World} → Reach w → Step w v → Reach v

pub record IsBounded (w : World) : Type 0 where
  pub counter : (host : Text) → concurrency host w ≤ in_flight host w.waiting
  pub metric : (host : Text) → pending host w ≡ in_flight host w.waiting
  pub bound : length w.waiting < int_min

remove-value :
    (host key : Text) (r : Memory)
    → value host (remove_key r key).0.concurrent_map
      ≡ (if text_eq key host then 0 else value host r.concurrent_map)
unfolding remove_key
remove-value host key r = ap get_or_zero (lookup-remove key host r.concurrent_map) ∙ ground arith

decrease-any :
    (host key : Text) (r : Memory)
    → value key r.concurrent_map < int_min
    → value host (decrease r key 1).concurrent_map
      ≡ (if text_eq key host then value key r.concurrent_map - 1 else value host r.concurrent_map)
unfolding decrease
decrease-any host key r b = elim (Option-cases (lookup key r.concurrent_map)) [
  | inl e ↦
      let none_there : value key r.concurrent_map ≡ 0 = rw e refl in
      rw (e, decrease) (ground (arith, value_of_equal host key r.concurrent_map, none_there))
  | inr (n, e) ↦
      let small : n < int_min = rw e at b in
      rw (e, decrease) (value-insert host key (clamped n 1) r.concurrent_map ∙ ground arith)
]

value-add-le :
    (host key : Text) (d : Dict Text ℕ) (rest : List Text)
    → value host d ≤ in_flight host rest
    → value key d ≤ in_flight key rest
    → suc (length rest) < int_min
    → value host (insert key (add64 (value key d) 1) d) ≤ in_flight host (key ∷ rest)
unfolding in_flight
value-add-le host key d rest h k b = ground (
  arith,
  value-insert host key (add64 (value key d) 1) d,
  text_eq_iff key host,
  in_flight_bound key rest,
  in_flight_bound host rest,
)

-- A value that is at most what is in flight, once one more ends.
left-le :
    (host key : Text) (before after : List Text) (x y : ℕ)
    → x ≤ in_flight key (before ++ (key ∷ after))
    → y ≤ in_flight host (before ++ (key ∷ after))
    → (if text_eq key host then x - 1 else y) ≤ in_flight host (before ++ after)
left-le host key before after x y h k = ground (
  arith,
  in_flight-append host before key after,
  in_flight-append key before key after,
  text_eq_iff key host,
  text_eq_self key,
)

leave-IsBounded :
    (c : Counting) (before : List Text) (key : Text) (after : List Text)
    → IsBounded (record { counting = c; waiting = before ++ (key ∷ after) })
    → IsBounded (record { counting = dec c key; waiting = before ++ after })
unfolding dec
leave-IsBounded c before key after h =
    let n = in_flight key (before ++ after) in
    let one : in_flight key (before ++ (key ∷ after)) ≡ suc n =
      ground (arith, in_flight-append key before key after, text_eq_self key) in
    let small : suc n < int_min =
      omega (arith, in_flight_bound key (before ++ (key ∷ after)), h.bound, one) in
    record {
      counter = λ host.
          rw (decrease-any host key c.queue_counter (omega (arith, h.counter key, one)))
            (left-le host key before after _ _ (h.counter key) (h.counter host));
      metric = λ host.
          metric-value host key c.pending_requests n (h.metric key ∙ one) (omega arith)
          ∙ left host key before after _ (h.metric host);
      bound = omega (arith, length-middle before key after, h.bound);
    }

arrive-IsBounded :
    (w : World) (key : Text) (now : ℕ) (c : Counting)
    → IsBounded w
    → suc (length w.waiting) < int_min
    → inc w.counting key now ≡ some c
    → IsBounded (record { counting = c; waiting = key ∷ w.waiting })
arrive-IsBounded w key now c h b e =
    let (p, q) = inc-parts w.counting c key now e in
    let old = w.counting.queue_counter.concurrent_map in
    record {
      counter =
          λ host. rw p (value-add-le host key old w.waiting (h.counter host) (h.counter key) b);
      metric = λ host.
          ap (value host) q
          ∙ value-add host key w.counting.pending_requests w.waiting (h.metric host) (h.metric key)
              b;
      bound = b;
    }

counted-IsBounded : {w v : World} → Balance.Step w v → IsBounded w → IsBounded v
counted-IsBounded {w} (Balance.arrive key now c b e) h = arrive-IsBounded w key now c h b e
counted-IsBounded (Balance.leave {c} before key after) h = leave-IsBounded c before key after h
counted-IsBounded {w} (Balance.ensure key window granularity m e) h = record {
  counter = λ host.
      rw (ensure-value host key w.counting.queue_counter m window granularity e) (h.counter host);
  metric = h.metric;
  bound = h.bound;
}
counted-IsBounded {w} (Balance.change key window granularity m e) h = record {
  counter = λ host.
      rw (change-value host key w.counting.queue_counter m window granularity e) (h.counter host);
  metric = h.metric;
  bound = h.bound;
}

removed-IsBounded :
    (w : World) (key : Text)
    → IsBounded w
    → IsBounded (with_queue w (remove_key w.counting.queue_counter key).0)
removed-IsBounded w key h = record {
  counter = λ host. ground (arith, remove-value host key w.counting.queue_counter, h.counter host);
  metric = h.metric;
  bound = h.bound;
}

Step-IsBounded : {w v : World} → Step w v → IsBounded w → IsBounded v
Step-IsBounded (counted s) h = counted-IsBounded s h
Step-IsBounded {w} (removed key e) h = rw e (removed-IsBounded w key h)

-- In whatever order requests arrive and end, and hosts are added, changed and removed, while fewer than
-- 2 ^ 63 requests wait: the queue counter never counts more requests for a host than are in flight, and
-- the metric of pending requests is exactly their number.
pub Reach-IsBounded : (w : World) → Reach w → IsBounded w
unfolding start new_memory lookup in_flight
Reach-IsBounded w started = record {
  counter = λ host. omega arith;
  metric = λ host. refl;
  bound = omega arith;
}
Reach-IsBounded w (next {w = v} r s) = Step-IsBounded s (Reach-IsBounded v r)
