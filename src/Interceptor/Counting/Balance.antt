-- ===== src/Interceptor/Counting/Balance.antt =====
-- The counter while requests come and go in any order.
use http_add_on.Prelude.{ℕ, suc, ◌<◌, ◌≡◌, refl, ap, ◌∙◌, some, List, [], ◌∷◌, ◌++◌, length, arith}
use http_add_on.Prelude.Text.{Text, text_eq_iff}
use http_add_on.Prelude.Word.{int_min}
use http_add_on.Prelude.Dict.{lookup, text_Eq}
use http_add_on.Queue.Memory.{Memory, new_memory, ensure_key, change_buckets}
use http_add_on.Interceptor.Counting.{Counting, inc, dec}
use http_add_on.Interceptor.Counting.Values.{
  decrease-value, ensure-value, in_flight, in_flight-append, in_flight_bound, inc-parts,
  change-value, left, length-middle, metric-value, value, value-add,
}

-- `waiting` has the key of every goroutine that has increased and not decreased yet.
pub record World : Type 0 where
  pub counting : Counting
  pub waiting : List Text

unfoldable pub start : World
start = record {
  counting = record { queue_counter = new_memory; pending_requests = [] };
  waiting = [];
}

abbrev pub with_queue : World → Memory → World
with_queue w m = record w { counting = record w.counting { queue_counter = m } }

-- What may happen next: a goroutine counts its request, or a counted one ends, or the routing table
-- adds or changes a host. The waiting requests are fewer than 2 ^ 63. A goroutine's calls of the counter
-- and of the metric, which are separate objects, are one step.
pub data Step : World → World → Type 0 where
  arrive :
      {w : World} (key : Text) (now : ℕ) (c : Counting)
      → suc (length w.waiting) < int_min
      → inc w.counting key now ≡ some c
      → Step w (record { counting = c; waiting = key ∷ w.waiting })
  leave :
      {c : Counting} (before : List Text) (key : Text) (after : List Text)
      → Step
          (record { counting = c; waiting = before ++ key ∷ after })
          (record { counting = dec c key; waiting = before ++ after })
  ensure :
      {w : World} (key : Text) (window granularity : ℕ) (m : Memory)
      → ensure_key w.counting.queue_counter key window granularity ≡ some m
      → Step w (with_queue w m)
  -- the second part of `UpdateBuckets`, whose first is `ensure`
  change :
      {w : World} (key : Text) (window granularity : ℕ) (m : Memory)
      → change_buckets w.counting.queue_counter key window granularity ≡ some m
      → Step w (with_queue w m)

pub data Reach : World → Type 0 where
  started : Reach start
  next : {w v : World} → Reach w → Step w v → Reach v

abbrev pub concurrency : Text → World → ℕ
concurrency host w = value host w.counting.queue_counter.concurrent_map

abbrev pub pending : Text → World → ℕ
pending host w = value host w.counting.pending_requests

pub record IsExact (w : World) : Type 0 where
  pub counter : (host : Text) → concurrency host w ≡ in_flight host w.waiting
  pub metric : (host : Text) → pending host w ≡ in_flight host w.waiting
  pub bound : length w.waiting < int_min

arrive-IsExact :
    (w : World) (key : Text) (now : ℕ) (c : Counting)
    → IsExact w
    → suc (length w.waiting) < int_min
    → inc w.counting key now ≡ some c
    → IsExact (record { counting = c; waiting = key ∷ w.waiting })
arrive-IsExact w key now c h b e =
    let (p, q) = inc-parts w.counting c key now e in
    let old = w.counting.queue_counter.concurrent_map in
    record {
      counter = λ host.
          ap (value host) p ∙ value-add host key old w.waiting (h.counter host) (h.counter key) b;
      metric = λ host.
          ap (value host) q
          ∙ value-add host key w.counting.pending_requests w.waiting (h.metric host) (h.metric key)
              b;
      bound = b;
    }

leave-IsExact :
    (c : Counting) (before : List Text) (key : Text) (after : List Text)
    → IsExact (record { counting = c; waiting = before ++ key ∷ after })
    → IsExact (record { counting = dec c key; waiting = before ++ after })
unfolding dec
leave-IsExact c before key after h =
    let n = in_flight key (before ++ after) in
    let one : in_flight key (before ++ key ∷ after) ≡ suc n =
      ground (arith, in_flight-append key before key after, text_eq_iff key key) in
    let small : n < int_min =
      omega
        (arith, in_flight_bound key (before ++ after), length-middle before key after, h.bound) in
    record {
      counter = λ host.
          decrease-value host key c.queue_counter n (h.counter key ∙ one) small
          ∙ left host key before after _ (h.counter host);
      metric = λ host.
          metric-value host key c.pending_requests n (h.metric key ∙ one) small
          ∙ left host key before after _ (h.metric host);
      bound = omega (arith, length-middle before key after, h.bound);
    }

Step-IsExact : {w v : World} → Step w v → IsExact w → IsExact v
Step-IsExact {w} (Step.arrive key now c b e) h = arrive-IsExact w key now c h b e
Step-IsExact (Step.leave {c} before key after) h = leave-IsExact c before key after h
Step-IsExact {w} (Step.ensure key window granularity m e) h = record {
  counter = λ host.
      ensure-value host key w.counting.queue_counter m window granularity e ∙ h.counter host;
  metric = h.metric;
  bound = h.bound;
}
Step-IsExact {w} (Step.change key window granularity m e) h = record {
  counter = λ host.
      change-value host key w.counting.queue_counter m window granularity e ∙ h.counter host;
  metric = h.metric;
  bound = h.bound;
}

-- In whatever order requests arrive and end, and hosts are added or changed, while no host is removed
-- and fewer than 2 ^ 63 requests wait: for every host the queue counter's concurrency and the metric
-- of pending requests both are the number of counted requests that have not ended.
pub Reach-IsExact : (w : World) → Reach w → IsExact w
unfolding start new_memory lookup in_flight
Reach-IsExact w Reach.started = record {
  counter = λ host. refl;
  metric = λ host. refl;
  bound = omega arith;
}
Reach-IsExact w (Reach.next {w = v} r s) = Step-IsExact s (Reach-IsExact v r)
