-- ===== src/Tests/Routing.antt =====
-- Tests of the routing, with the association lists for the radix tree.
use http_add_on.Prelude.{◌≡◌, refl, true, none, some, List, [], ◌∷◌, ◌++◌, arith}
use http_add_on.Prelude.Text.{Text, codes}
use http_add_on.Prelude.Dict.{text_Eq}
use http_add_on.Api.{HttpScaledObject, to_string}
use http_add_on.Queue.Memory.{new_memory}
use http_add_on.Routing.Key.{new_key, cut_port, path_part, Request, new_key_from_request}
use http_add_on.Routing.Key.Laws.{is_prefix, new_key-canonical, new_key-prefix}
use http_add_on.Routing.Radix.{Radix, dict_radix}
use http_add_on.Routing.Memory.{
  TableMemory, new_table_memory, remember, recall, forget, route, remember_all,
}
use http_add_on.Routing.Memory.Route.{IsRouted, route-IsRouted}
use http_add_on.Routing.Memory.Names.{recall-remember}
use http_add_on.Routing.Table.{values, table_route, new_table, set_memory, new_memory_from_httpsos}
use http_add_on.Routing.Table.Refresh.{World, Reach, start, Step, Phase, quiescent_routes}
use http_add_on.Prelude.{ℕ, Bool, false, Option}
use http_add_on.Prelude.Dict.{insert, lookup}
use http_add_on.Prelude.Returns.{Returns, Returns-eq}
use http_add_on.Queue.Time.{second}
use http_add_on.Queue.Memory.{Memory, ensure_key}
use http_add_on.Queue.Memory.Sound.{IsSound, HasKey, new_memory-IsSound, ensure_key_total}
use http_add_on.Routing.Signaler.{signal, wait}
use http_add_on.Routing.Table.{Table, minute, add_write, raise}
use http_add_on.Routing.Table.Refresh.{starting, built, waiting}
use http_add_on.Routing.Table.Requests.{quiescent_counts, ReachPlain}
use http_add_on.Interceptor.Counting.{Counting, inc}
use http_add_on.Tests.Data.{web, rival, name_of}

abbrev rt : Radix HttpScaledObject
rt = dict_radix HttpScaledObject

abbrev both : List HttpScaledObject
both = web ∷ rival ∷ []

abbrev key : Text
key = new_key (codes "a.io") (codes "x")

new_key-canonical_example :
    new_key (codes "a" ++ (codes ":" ++ codes "80")) (codes "/" ++ (codes "x" ++ codes "/"))
    ≡ new_key (codes "a") (codes "x")
new_key-canonical_example =
    new_key-canonical (codes "a") (codes "80") (codes "x") ((λ e. omega (arith, e)), tt)
      ((λ e. omega (arith, e)), ((λ e. omega (arith, e)), tt))

new_key-prefix_example :
    (cut_port (codes "a") ≡ cut_port (codes "a"))
    × (is_prefix (path_part (codes "x")) (path_part (codes "x/y")) ≡ true)
unfolding cut_port new_key path_part
new_key-prefix_example =
    new_key-prefix (codes "a") (codes "x") (codes "a") (codes "x/y") ((λ e. omega (arith, e)), tt)
      ((λ e. omega (arith, e)), tt) refl

route-IsRouted_example :
    IsRouted both key (route rt (remember_all rt (new_table_memory rt) both) key)
route-IsRouted_example = route-IsRouted rt both key

abbrev remembered : TableMemory rt
remembered = remember rt (new_table_memory rt) (some web)

web_recalled : recall rt remembered (some (name_of (codes "web"))) ≡ some web
web_recalled = recall-remember rt (new_table_memory rt) web (name_of (codes "web"))

abbrev first : World rt
first = start rt new_memory

abbrev second_world : World rt
second_world = record first { phase = Phase.built (new_memory_from_httpsos rt first.table) }

abbrev third_world : World rt
third_world = record second_world {
  table = set_memory rt first.table (new_memory_from_httpsos rt first.table);
  phase = Phase.waiting;
}

quiet : Reach rt new_memory third_world
unfolding start
quiet =
    Reach.next {w = second_world}
      (Reach.next {w = first} (Reach.here first refl) (Step.build refl refl))
      (Step.publish (new_memory_from_httpsos rt first.table) refl refl)

abbrev asked : Request
asked = record { url = some (record { host = []; path = codes "/x" }); host = codes "a.io" }

quiescent_routes_example :
    IsRouted
      (values third_world.table.http_scaled_objects)
      (new_key_from_request (some asked))
      (table_route rt third_world.table (some asked))
unfolding start set_memory new_table
quiescent_routes_example =
    quiescent_routes rt {counter = new_memory} {w = third_world} asked quiet refl refl refl

-- A table that has handled the addition of `web`, with its host in the counter.
abbrev web_host :
    (m : Memory) × (ensure_key new_memory (to_string web.key) minute second ≡ some m)
    × HasKey (to_string web.key) m
web_host =
    Returns-eq (ensure_key new_memory (to_string web.key) minute second)
      (HasKey (to_string web.key))
      (ensure_key_total new_memory (to_string web.key) minute second (omega arith) (omega arith)
        new_memory-IsSound)

abbrev web_table : Table rt
web_table = record {
  http_scaled_objects = (web.key, web) ∷ [];
  memory_holder = none;
  memory_signaler = false;
  queue_counter = web_host.0;
}

web_added : add_write rt (new_table rt new_memory) web ≡ some web_table
unfolding add_write new_table insert
web_added = rw (web_host.1) refl

abbrev world : ℕ → Bool → Phase rt → Option (TableMemory rt) → World rt
world unsignaled signaler phase holder = record {
  table = record web_table { memory_signaler = signaler; memory_holder = holder };
  unsignaled = unsignaled;
  phase = phase;
}

abbrev web_memory : TableMemory rt
web_memory = new_memory_from_httpsos rt web_table

-- Added, signaled, built, published, woken by the signal, built and published again.
unfoldable settled : Reach rt new_memory (world 0 false waiting (some web_memory))
unfolding start new_table raise signal set_memory new_memory_from_httpsos wait
settled =
    Reach.next {w = world 0 false (built web_memory) (some web_memory)}
      (Reach.next {w = world 0 false starting (some web_memory)}
        (Reach.next {w = world 0 true waiting (some web_memory)}
          (Reach.next {w = world 0 true (built web_memory) none}
            (Reach.next {w = world 0 true starting none}
              (Reach.next {w = world 1 false starting none}
                (Reach.next {w = first} (Reach.here first refl)
                  (Step.added web web_table web_added refl))
                (Step.raised 0 refl refl))
              (Step.build refl refl))
            (Step.publish web_memory refl refl))
          (Step.wake false refl refl refl))
        (Step.build refl refl))
      (Step.publish web_memory refl refl)

settled_plain : ReachPlain rt settled
unfolding ReachPlain settled
settled_plain = (((((((tt, (refl, (refl, tt))), tt), tt), tt), tt), tt), tt)

settled_routes :
    table_route rt (world 0 false waiting (some web_memory)).table (some asked) ≡ some web
unfolding table_route route http_add_on.Routing.Radix.longest new_key_from_request
    http_add_on.Routing.Key.new_key_from_url new_key lookup new_memory_from_httpsos remember_all
    remember http_add_on.Routing.Memory.store_keys http_add_on.Routing.Key.new_keys_from_httpso
    new_table_memory insert
settled_routes = refl

abbrev fresh_counting : Counting
fresh_counting = record { queue_counter = web_host.0; pending_requests = [] }

quiescent_counts_example :
    Returns (inc fresh_counting (to_string web.key) second) (λ d. IsSound d.queue_counter)
quiescent_counts_example =
    quiescent_counts rt {counter = new_memory} {w = world 0 false waiting (some web_memory)} asked
      web fresh_counting second settled settled_plain refl refl refl settled_routes web_host.2.sound
      λ host h. h
