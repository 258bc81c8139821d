-- ===== src/Tests/Cluster.antt =====
-- Tests of the counts' way from the interceptors to the scaler. Numbers in a row stand for JSON.
mod Scaling
use mathlib.Core.List.Perm
use mathlib.Core.List.{Perm}
use http_add_on.Prelude.{
  ℕ, zero, suc, ◌+◌, ◌*◌, ◌≤◌, ◌⊎◌, ◌≡◌, refl, ap, ◌∙◌, Bool, true, false, Option, none, some, [],
  ◌∷◌, ◌++◌, ◌==◌, arith, if◌then◌else◌,
}
use http_add_on.Prelude.Text.{Text, codes}
use http_add_on.Prelude.Dict.{text_Eq}
use http_add_on.Prelude.Returns.{Returns-eq}
use http_add_on.Queue.Time.{second}
use http_add_on.Queue.Memory.{Memory, new_memory, increase}
use http_add_on.Queue.Memory.Sound.{IsSound, increase_total}
use http_add_on.Queue.Counts.{Count, done, current}
use http_add_on.Queue.Counts.Current.{IsSnapshot, current_total}
use http_add_on.Queue.Rpc.{HttpResponse, Json, counts_path, new_size_handler, get_counts}
use http_add_on.Queue.Rpc.Answers.{
  IsFaithful, IsFinite, get_counts-new_size_handler, get_counts_only,
}
use http_add_on.Interceptor.Counting.{Counting, inc, record_pending_request_count}
use http_add_on.Interceptor.Counting.Balance.{World, Reach, Step, start, with_queue}
use http_add_on.Scaler.Pinger.{Counts}
use http_add_on.Scaler.Pinger.Totals.{reported}
use http_add_on.Cluster.{answer}
use http_add_on.Cluster.Schedule.{HasReturned, fetch-in_flight}
use http_add_on.Scaler.Fetch
use http_add_on.Interceptor.Counting.Values.{value}
use http_add_on.Tests.Fetch.{fetched, fetch_run}
use http_add_on.Tests.Data.{whole}
use http_add_on.Tests.Queue.{now, counted}

-- A host's bytes, each after a 1, then a 0 and its count.
unfoldable write_host : Text → Text → Text
write_host [] rest = 0 ∷ rest
write_host (c ∷ k) rest = 1 ∷ c ∷ write_host k rest

unfoldable write_counts : Counts whole → Text
write_counts [] = []
write_counts ((k, v) ∷ m) = write_host k (v.concurrency ∷ v.rps ∷ write_counts m)

abbrev push : ℕ → Option (Counts whole) → Option (Counts whole)
push c none = none
push c (some []) = none
push c (some ((k, v) ∷ m)) = some ((c ∷ k, v) ∷ m)

abbrev keep : ℕ → ℕ → Option (Counts whole) → Option (Counts whole)
keep n r none = none
keep n r (some m) = some (([], record { concurrency = n; rps = r }) ∷ m)

unfoldable read_counts : Text → Option (Counts whole)
read_counts [] = some []
read_counts (zero ∷ n ∷ r ∷ rest) = keep n r (read_counts rest)
read_counts (suc zero ∷ c ∷ rest) = push c (read_counts rest)
read_counts _ = none

read_counts-write_host :
    (k : Text) (n r : ℕ) (rest : Text) (m : Counts whole)
    → read_counts rest ≡ some m
    → read_counts (write_host k (n ∷ r ∷ rest))
      ≡ some ((k, record { concurrency = n; rps = r }) ∷ m)
unfolding read_counts write_host
read_counts-write_host [] n r rest m h = ap (keep n r) h
read_counts-write_host (c ∷ k) n r rest m h = ap (push c) (read_counts-write_host k n r rest m h)

read_counts-write_counts : (m : Counts whole) → read_counts (write_counts m) ≡ some m
unfolding read_counts write_counts
read_counts-write_counts [] = refl
read_counts-write_counts ((k, v) ∷ m) =
    read_counts-write_host k v.concurrency v.rps (write_counts m) m (read_counts-write_counts m)

abbrev json : Json whole
json = record { finite = λ r. true; encode = λ m. some (write_counts m); decode = read_counts }

faithful : IsFaithful whole json
unfolding read_counts
faithful = record {
  round_trip = λ m d r. rw (read_counts-write_counts m) (Perm.refl m);
  words = refl;
  other_words = refl;
  zero_finite = refl;
  quotient_finite = λ a b h. refl;
}

abbrev served : Text → Option HttpResponse
served url = new_size_handler whole json (λ host. now) counted.0

get_counts-new_size_handler_example :
    (counts : Counts whole) × (got : Counts whole) × (get_counts whole json served
        (codes "10.0.0.1:9090")
      ≡ some got)
    × Perm counts got
    × IsSnapshot whole
        (λ host. now)
        counted.0.rps_map
        (IsFinite whole json)
        counted.0.concurrent_map
        counts
get_counts-new_size_handler_example =
    get_counts-new_size_handler whole json served (codes "10.0.0.1:9090") (λ host. now) counted.0
      faithful counted.2.sound refl

abbrev empty_served : Text → Option HttpResponse
empty_served url = new_size_handler whole json (λ host. now) new_memory

served_nothing : get_counts whole json empty_served (codes "10.0.0.1:9090") ≡ some []
unfolding get_counts new_size_handler current new_memory read_counts
    http_add_on.Queue.Counts.count_all write_counts
served_nothing = refl

get_counts_only_example :
    (counts : Counts whole) × (text : Text) × (current whole (λ host. now) new_memory ≡ done counts)
    × (json.encode counts ≡ some text)
    × (json.decode text ≡ some [])
get_counts_only_example =
    get_counts_only whole json empty_served (codes "10.0.0.1:9090") (λ host. now) new_memory []
      faithful refl served_nothing

-- An interceptor that has the host and no request, and one that counts a request.
abbrev key : Text
key = codes "ns/web"

abbrev idle : World
idle = with_queue start counted.0

idle_reached : Reach idle
unfolding start
idle_reached =
    Reach.next {w = start} Reach.started
      (Step.ensure {w = start} key second second counted.0 counted.1)

abbrev increased : (m : Memory) × (increase counted.0 key 1 now ≡ some m) × IsSound m
increased = Returns-eq (increase counted.0 key 1 now) IsSound (
    increase_total counted.0 key 1 now counted.2.sound
      (counted.2.sound.paired key ∙ counted.2.present))

abbrev busy_counting : Counting
busy_counting = record {
  queue_counter = increased.0;
  pending_requests = record_pending_request_count idle.counting.pending_requests key 1;
}

abbrev busy : World
busy = record { counting = busy_counting; waiting = key ∷ idle.waiting }

busy_counted : inc idle.counting key now ≡ some busy_counting
unfolding inc
busy_counted = rw (increased.1) refl

busy_reached : Reach busy
unfolding start
busy_reached =
    Reach.next {w = idle} idle_reached
      (Step.arrive {w = idle} key now busy_counting (omega arith) busy_counted)

-- The interceptor at an address that starts with `2` is busy.
abbrev first : Text → ℕ
first [] = b'/'
first (c ∷ rest) = c

abbrev worlds : Text → World
worlds url = if first url == b'2' then busy else idle

abbrev network : Text → Option HttpResponse
network url = new_size_handler whole json (λ host. now) (worlds url).counting.queue_counter

network_serves :
    (url : Text)
    → network (url ++ counts_path)
      ≡ new_size_handler whole json (λ host. now) (worlds url).counting.queue_counter
network_serves [] = refl
network_serves (c ∷ rest) = refl

pick : (P : World → Type 0) (b : Bool) → P busy → P idle → P (if b then busy else idle)
pick P true p q = p
pick P false p q = q

worlds_reached : (url : Text) → Reach (worlds url)
worlds_reached url = pick Reach (first url == b'2') busy_reached idle_reached

worlds_sound : (url : Text) → IsSound (worlds url).counting.queue_counter
worlds_sound url =
    pick (λ w. IsSound w.counting.queue_counter) (first url == b'2') increased.2 counted.2.sound

abbrev memory : Text → Memory
memory url = (worlds url).counting.queue_counter

-- What the busy interceptor answers.
abbrev busy_answer :
    (got : Counts whole) × (get_counts whole json network (codes "2:9090") ≡ some got)
    × ((host : Text)
        → reported whole host got ≡ value host (memory (codes "2:9090")).concurrent_map)
busy_answer =
    answer whole json faithful network memory (λ url host. now) network_serves worlds_sound
      (codes "2:9090")

fetch-in_flight_example :
    (6 ≤ 3 * 1 + 3)
    × (((u : Fetch.World whole) × Fetch.Step whole (fetched busy_answer.0) u)
        ⊎ HasReturned whole worlds (codes "2:9090" ∷ []) (fetched busy_answer.0))
fetch-in_flight_example =
    fetch-in_flight whole json network worlds (λ url host. now) (codes "2:9090" ∷ []) faithful
      network_serves worlds_reached worlds_sound
      (fetch_run (get_counts whole json network) (codes "2:9090") busy_answer.0 busy_answer.1)
