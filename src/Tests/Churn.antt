-- ===== src/Tests/Churn.antt =====
-- The counter while hosts come and go.
use http_add_on.Prelude.{true, arith, none, some, ◌*◌, ◌≡◌, refl, [], ◌∷◌}
use http_add_on.Prelude.Text.{Text, codes}
use http_add_on.Prelude.Dict.{lookup, insert, text_Eq}
use http_add_on.Queue.Time.{second}
use http_add_on.Queue.Buckets.{RequestsBuckets, new_requests_buckets}
use http_add_on.Queue.Memory.{
  Memory, new_memory, change_buckets, update_buckets, ensure_key, ensure_concurrency,
  ensure_buckets, remove_key,
}
use http_add_on.Interceptor.Counting.{Counting, inc}
use http_add_on.Interceptor.Counting.Fine.{inc-on_update}
use http_add_on.Api.{HttpScaledObject}
use http_add_on.Routing.Radix.{Radix, dict_radix}
use http_add_on.Routing.Table.{Table, new_table, on_update}
use http_add_on.Tests.Data.{web}
use http_add_on.Interceptor.Counting.Balance
use http_add_on.Interceptor.Counting.Balance.{start, with_queue, concurrency}
use http_add_on.Interceptor.Counting.Churn.{
  started, next, counted, removed, IsBounded, Reach-IsBounded,
}

abbrev host : Text
host = codes "ns/web"

-- One bucket of one second.
abbrev fresh : RequestsBuckets
fresh = record {
  buckets = 0 ∷ [];
  first_write = 0;
  last_write = 0;
  granularity = second;
  window = second;
  window_total = 0;
}

abbrev ensured : Memory
ensured = record { concurrent_map = (host, 0) ∷ []; rps_map = (host, fresh) ∷ [] }

abbrev recorded : RequestsBuckets
recorded = record {
  buckets = 1 ∷ [];
  first_write = 60 * second;
  last_write = 60 * second;
  granularity = second;
  window = second;
  window_total = 1;
}

abbrev arrived : Counting
arrived = record {
  queue_counter = record { concurrent_map = (host, 1) ∷ []; rps_map = (host, recorded) ∷ [] };
  pending_requests = (host, 1) ∷ [];
}

-- The request that comes after the host has been recreated is the second of the metric.
abbrev arrived_again : Counting
arrived_again = record arrived { pending_requests = (host, 2) ∷ [] }

-- A host that is added and removed.
Reach-IsBounded_example :
    IsBounded (with_queue (with_queue start ensured) (remove_key ensured host).0)
unfolding start ensure_key ensure_concurrency ensure_buckets new_requests_buckets new_memory lookup
    insert
Reach-IsBounded_example = Reach-IsBounded _ (
    next {w = with_queue start ensured}
      (next {w = start} started
        (counted (Balance.ensure {w = start} host second second ensured refl)))
      (removed host refl))

-- The object is given buckets of half a second.
abbrev fine_web : HttpScaledObject
fine_web = record web {
  spec = record web.spec {
    scaling_metric = some (record {
      concurrency = none;
      rate = some (record { target_value = 1; window = second; granularity = 500000000 });
    });
  };
}

abbrev fine_buckets : RequestsBuckets
fine_buckets = record fresh { buckets = 0 ∷ 0 ∷ []; granularity = 500000000 }

abbrev rt : Radix HttpScaledObject
rt = dict_radix HttpScaledObject

abbrev updated : Table rt
updated = record {
  http_scaled_objects = (web.key, fine_web) ∷ [];
  memory_holder = none;
  memory_signaler = true;
  queue_counter = record { concurrent_map = (host, 0) ∷ []; rps_map = (host, fine_buckets) ∷ [] };
}

inc-on_update_example :
    inc (record { queue_counter = updated.queue_counter; pending_requests = [] }) host (60 * second)
    ≡ none
unfolding on_update new_table ensure_key ensure_concurrency ensure_buckets change_buckets
    update_buckets new_requests_buckets lookup insert
inc-on_update_example =
    inc-on_update rt (new_table rt ensured) updated web fine_web [] (60 * second) (omega arith) refl
