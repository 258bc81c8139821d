-- ===== src/Tests/Start.antt =====
-- The start of a routing table that is canceled before its informer has synced.
use http_add_on.Prelude.{◌≡◌, refl, true, false, none, some, ◌⊎◌}
use http_add_on.Api.{HttpScaledObject}
use http_add_on.Queue.Memory.{new_memory}
use http_add_on.Routing.Radix.{Radix, dict_radix}
use http_add_on.Routing.Table.{new_table}
use http_add_on.Routing.Table.Start.{
  Run, Reach, start, fail, cancel, run_informer, create, returned, here, next, cancels,
  informer_returned, informer_returns, refresher_returned, sync_ends,
}
use http_add_on.Routing.Table.Start.Within.{Within}
use http_add_on.Routing.Table.Start.Returns.{Reported, start_returns}
use http_add_on.Process.{Err, canceled}

abbrev rt : Radix HttpScaledObject
rt = dict_radix HttpScaledObject

abbrev canceled_run : Run rt
canceled_run = cancel rt (start rt (new_table rt new_memory))

abbrev stopped_run : Run rt
stopped_run = record (fail rt canceled_run (run_informer false canceled_run.context)) {
  informer = informer_returned;
}

abbrev ended_run : Run rt
ended_run = record (fail rt stopped_run canceled) { refresher = refresher_returned }

ended : Reach rt false new_memory none ended_run
unfolding start cancel fail create run_informer
ended =
    next
      (next (next (here (new_table rt new_memory) refl) (cancels refl))
        (informer_returns refl refl))
      (sync_ends canceled refl refl refl)

ended_with : returned rt ended_run ≡ some (some canceled)
unfolding start cancel fail returned run_informer
ended_with = refl

start_returns_example :
    ((returned rt ended_run ≡ none)
      ⊎ ((e : Err) × (returned rt ended_run ≡ some (some e)) × Reported rt false e true))
    × ((true ≡ false) ⊎ Within rt false 4 ended_run)
unfolding start cancel fail
start_returns_example = start_returns rt false ended
