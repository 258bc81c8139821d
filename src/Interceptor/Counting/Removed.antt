-- ===== src/Interceptor/Counting/Removed.antt =====
-- The counter's `Increase` after the routing table has removed the host.
use http_add_on.Prelude.{ℕ, ◌≡◌, refl, none, some}
use http_add_on.Prelude.Text.{Text, text_eq_self}
use http_add_on.Prelude.Dict.{Dict, text_Eq, lookup-remove}
use http_add_on.Api.{HttpScaledObject, to_string}
use http_add_on.Queue.Memory.{Memory, increase, remove_key}
use http_add_on.Queue.Memory.Sound.{increase_missing}
use http_add_on.Routing.Radix.{Radix}
use http_add_on.Routing.Table.{Table, on_delete}
use http_add_on.Interceptor.Counting.{inc}

increase-remove_key :
    (r : Memory) (host : Text) (delta now : ℕ)
    → increase (remove_key r host).0 host delta now ≡ none
unfolding remove_key
increase-remove_key r host delta now =
    increase_missing _ host delta now
      (rw (lookup-remove host host r.rps_map, text_eq_self host) refl)

-- Once the routing table has handled the deletion of an object, counting a request for it panics, in
-- whatever state the counter and the metric are and at any time: the host has no buckets then, and
-- nothing in the goroutine recovers.
pub inc-on_delete :
    (rt : Radix HttpScaledObject) (t : Table rt) (h : HttpScaledObject)
    (pending_requests : Dict Text ℕ) (now : ℕ)
    → inc
        (record {
          queue_counter = (on_delete rt t (some h)).queue_counter;
          pending_requests = pending_requests;
        })
        (to_string h.key)
        now
      ≡ none
unfolding inc on_delete http_add_on.Routing.Table.raise http_add_on.Routing.Table.delete_write
inc-on_delete rt t h pending_requests now =
    rw (increase-remove_key t.queue_counter (to_string h.key) 1 now) refl
