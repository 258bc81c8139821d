-- ===== src/Cluster/Schedule.antt =====
-- The fetch of the interceptors' counts as the goroutines of Scaler/Fetch make it, in any order.
use mathlib.Core.List.Perm
use http_add_on.Prelude.{
  ℕ, ◌+◌, ◌*◌, ◌%◌, ◌≤◌, ◌≡◌, ◌⊎◌, inl, inr, ap, ◌∙◌, some, List, [], ◌∷◌, none, ◌++◌, length,
  Option,
}
use http_add_on.Prelude.Text.{Text}
use http_add_on.Prelude.Word.{word_mod}
use http_add_on.Queue.Float.{Float64}
use http_add_on.Queue.Memory.Sound.{IsSound}
use http_add_on.Queue.Rpc.{HttpResponse, Json, counts_path, new_size_handler, get_counts}
use http_add_on.Queue.Rpc.Answers.{IsFaithful}
use http_add_on.Interceptor.Counting.Balance.{World, Reach}
use http_add_on.Scaler.Pinger.{Counts, add_all}
use http_add_on.Scaler.Pinger.Totals.{known, reported_by_all, add_all-total}
use http_add_on.Scaler.Fetch
use http_add_on.Scaler.Fetch.{Run, returned}
use http_add_on.Scaler.Fetch.Ends.{asked, IsEnd, HasEnded, fetch_counts_ends}
use http_add_on.Cluster.{answers, counted-in_flight, in_flight_at}

module _ (f : Float64) where
  -- The fetch has returned what is in flight at these URLs, or an error if there is none.
  abbrev pub HasReturned : (Text → World) → List Text → Fetch.World f → Type 0
  HasReturned worlds [] v = v.main ≡ returned none
  HasReturned worlds (url ∷ urls) v =
      (got : Counts f) × (v.main ≡ returned (some got))
      × ((host : Text) → known f host got ≡ in_flight_at f worlds host (url ∷ urls) % word_mod)

  end_returned :
      (worlds : Text → World) (url : Text) (urls : List Text) (v : Fetch.World f)
      (all : List (Counts f))
      → ((host : Text) → reported_by_all f host all ≡ in_flight_at f worlds host (url ∷ urls))
      → IsEnd f (some all) (length (url ∷ urls)) v
      → HasReturned worlds (url ∷ urls) v
  end_returned worlds url urls v all k (arrived, p, e, idle, closed) = (
    add_all f [] arrived,
    e,
    λ host. add_all-total f host all arrived (Perm.symm p) ∙ ap (λ n. n % word_mod) (k host),
  )

  module _ (json : Json f) (get : Text → Option HttpResponse) (worlds : Text → World)
      (clock : Text → Text → ℕ) (h : IsFaithful f json)
      (serve : (u : Text)
        → get (u ++ counts_path)
          ≡ new_size_handler f json (clock u) (worlds u).counting.queue_counter)
      (r : (u : Text) → Reach (worlds u))
      (sound : (u : Text) → IsSound (worlds u).counting.queue_counter) where
    ended-HasReturned :
        (urls : List Text) (v : Fetch.World f)
        → HasEnded f (get_counts f json get) urls v
        → HasReturned worlds urls v
    ended-HasReturned [] v end = end.0
    ended-HasReturned (url ∷ urls) v end =
        let (all, es, ks) =
          answers f json h get (λ u. (worlds u).counting.queue_counter) clock serve sound
            (url ∷ urls) in
        end_returned worlds url urls v all
          (λ host. ks host ∙ counted-in_flight f worlds host (url ∷ urls) r) (rw es at end)

  -- When every interceptor has counted its requests, in whatever order they came and went, from the
  -- start, with no host removed, and serves its sound counter's counts: in whatever order the
  -- goroutines of the scaler's fetch go on, they make at most three steps for each interceptor and
  -- three more, and once none can be made the fetch has returned, for each host, the number
  -- of requests for it that are in flight over all interceptors, modulo 2 ^ 64; but with no
  -- interceptor it has returned an error.
  pub fetch-in_flight :
      (json : Json f) (get : Text → Option HttpResponse) (worlds : Text → World)
      (clock : Text → Text → ℕ) (urls : List Text) {k : ℕ} {v : Fetch.World f}
      → IsFaithful f json
      → ((u : Text)
          → get (u ++ counts_path)
            ≡ new_size_handler f json (clock u) (worlds u).counting.queue_counter)
      → ((u : Text) → Reach (worlds u))
      → ((u : Text) → IsSound (worlds u).counting.queue_counter)
      → Run f (Fetch.start f (asked f (get_counts f json get) urls)) k v
      → (k ≤ 3 * length urls + 3)
        × (((u : Fetch.World f) × Fetch.Step f v u) ⊎ HasReturned worlds urls v)
  fetch-in_flight json get worlds clock urls {k} {v} h serve r sound run =
      let (few, ends) = fetch_counts_ends f (get_counts f json get) urls run in
      (
        few,
        elim ends [
          | inl step ↦ inl step
          | inr end ↦ inr (ended-HasReturned json get worlds clock h serve r sound urls v end)
        ],
      )
