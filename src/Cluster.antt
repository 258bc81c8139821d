-- ===== src/Cluster.antt =====
-- The interceptors and the scaler together: what the scaler's fetch knows of the requests that the
-- interceptors count. The code is that of Interceptor/Counting, Queue/Rpc and Scaler/Pinger.

pub mod Schedule
pub mod Scaling
use mathlib.Core.Option
use mathlib.Core.List.{Perm, Permᴰ}
use mathlib.Core.Logic.{∥∥₁_elim}
use native.Mathlib.Nat.{ℕ_set}
use http_add_on.Prelude.{
  ℕ, ◌+◌, ◌%◌, ◌≡◌, refl, sym, ap, ◌∙◌, true, Option, none, some, List, [], ◌∷◌, ◌++◌, arith,
  Bool-cases, inl, inr,
}
use http_add_on.Prelude.Text.{Text, text_eq, text_eq_iff}
use http_add_on.Prelude.Word.{word_mod}
use http_add_on.Prelude.Dict.{lookup, text_Eq}
use http_add_on.Queue.Float.{Float64}
use http_add_on.Queue.Memory.{Memory, get_or_zero}
use http_add_on.Queue.Memory.Sound.{IsSound}
use http_add_on.Queue.Counts.{Count}
use http_add_on.Queue.Counts.Current.{Distinct}
use http_add_on.Queue.Rpc.{HttpResponse, Json, counts_path, new_size_handler, get_counts}
use http_add_on.Queue.Rpc.Answers.{IsFaithful, get_counts-new_size_handler}
use http_add_on.Interceptor.Counting.Values.{value, in_flight}
use http_add_on.Interceptor.Counting.Balance.{World, Reach, Reach-IsExact}
use http_add_on.Scaler.Pinger.{
  Counts, Endpoints, or_zero, add_all, get_all, endpoints_for_service, fetch_counts,
}
use http_add_on.Scaler.Pinger.Totals.{
  known, known-cons, nothing_known, reported, reported_by_all, add_all-total,
}

module _ (f : Float64) where
  reported_absent : (host : Text) (m : Counts f) → lookup host m ≡ none → reported f host m ≡ 0
  unfolding reported lookup
  reported_absent host [] h = refl
  reported_absent host ((k, v) ∷ m) h = elim (Bool-cases (text_eq k host)) [
    | inl e ↦ absurd (cc (rw e at h))
    | inr e ↦ rw e (omega (arith, reported_absent host m (rw e at h)))
  ]

  absent_at :
      (host k : Text) (m : Counts f)
      → lookup k m ≡ none
      → text_eq k host ≡ true
      → reported f host m ≡ 0
  absent_at host k m d e =
      reported_absent host m (ap (λ i. lookup i m) (sym ((text_eq_iff k host).0 e)) ∙ d)

  reported-known : (host : Text) (m : Counts f) → Distinct m → reported f host m ≡ known f host m
  unfolding reported Distinct
  reported-known host [] d = sym (nothing_known f host)
  reported-known host ((k, v) ∷ m) (d, ds) =
      ground (arith, known-cons f host k v m, reported-known host m ds, absent_at host k m d)

  reported-permᴰ :
      (host : Text) {a b : Counts f} → Permᴰ a b → reported f host a ≡ reported f host b
  unfolding reported
  reported-permᴰ host Permᴰ.nil = refl
  reported-permᴰ host (Permᴰ.cons e p) = rw e (omega (arith, reported-permᴰ host p))
  reported-permᴰ host (Permᴰ.swap e e') = rw (e, e') (omega arith)
  reported-permᴰ host (Permᴰ.trans p q) = reported-permᴰ host p ∙ reported-permᴰ host q

  reported-perm : (host : Text) {a b : Counts f} → Perm a b → reported f host a ≡ reported f host b
  reported-perm host {a} {b} p = ∥∥₁_elim p (ℕ_set _ _) (reported-permᴰ host)

  or_zero-map :
      (o : Option (Count f.Carrier))
      → (or_zero f o).concurrency ≡ get_or_zero (Option.map (λ c. c.concurrency) o)
  or_zero-map none = refl
  or_zero-map (some c) = refl

  -- What the interceptors count for the host, over these URLs.
  unfoldable pub counted : (Text → Memory) → Text → List Text → ℕ
  counted memory host [] = 0
  counted memory host (url ∷ urls) =
      value host (memory url).concurrent_map + counted memory host urls

  module _ (json : Json f) where
    module _ (h : IsFaithful f json) (get : Text → Option HttpResponse) (memory : Text → Memory)
        (clock : Text → Text → ℕ)
        (serve : (url : Text)
          → get (url ++ counts_path) ≡ new_size_handler f json (clock url) (memory url))
        (sound : (url : Text) → IsSound (memory url)) where
      pub answer :
          (url : Text)
          → (got : Counts f) × (get_counts f json get url ≡ some got)
            × ((host : Text) → reported f host got ≡ value host (memory url).concurrent_map)
      answer url =
          let (counts, got, e, same, snap) =
            get_counts-new_size_handler f json get url (clock url) (memory url) h (sound url)
              (serve url) in
          (
            got,
            e,
            λ host.
                sym (reported-perm host same)
                ∙ reported-known host counts snap.distinct
                ∙ or_zero-map (lookup host counts)
                ∙ ap get_or_zero (snap.concurrencies host),
          )

      pub answers :
          (urls : List Text)
          → (all : List (Counts f)) × (get_all f (get_counts f json get) urls ≡ some all)
            × ((host : Text) → reported_by_all f host all ≡ counted memory host urls)
      unfolding get_all reported_by_all counted
      answers [] = ([], refl, λ host. refl)
      answers (url ∷ urls) =
          let (got, e, k) = answer url in
          let (all, es, ks) = answers urls in
          (got ∷ all, rw (e, es) refl, λ host. omega (arith, k host, ks host))

      -- When every interceptor serves its `/queue` route and its counter is sound, a fetch succeeds,
      -- and for every host the pinger then knows the sum over the interceptors of their
      -- concurrencies, modulo 2 ^ 64, in whatever order the answers arrive and each map is encoded.
      fetch_counts_total :
          (port : Text) (endpoints : Option Endpoints) (url : Text) (urls : List Text)
          (arrival : List (Counts f) → List (Counts f))
          → endpoints_for_service port endpoints ≡ some (url ∷ urls)
          → ((l : List (Counts f)) → Perm l (arrival l))
          → (got : Counts f) × (fetch_counts f port endpoints (get_counts f json get) arrival
              ≡ some got)
            × ((host : Text) → known f host got ≡ counted memory host (url ∷ urls) % word_mod)
      unfolding fetch_counts
      fetch_counts_total port endpoints url urls arrival e p =
          let (all, es, k) = answers (url ∷ urls) in
          (
            add_all f [] (arrival all),
            rw (e, es) refl,
            λ host.
                add_all-total f host all (arrival all) (p all) ∙ ap (λ n. n % word_mod) (k host),
          )

  -- The requests for the host that are in flight at the interceptors of these URLs.
  unfoldable pub in_flight_at : (Text → World) → Text → List Text → ℕ
  in_flight_at worlds host [] = 0
  in_flight_at worlds host (url ∷ urls) =
      in_flight host (worlds url).waiting + in_flight_at worlds host urls

  pub counted-in_flight :
      (worlds : Text → World) (host : Text) (urls : List Text)
      → ((url : Text) → Reach (worlds url))
      → counted (λ url. (worlds url).counting.queue_counter) host urls
        ≡ in_flight_at worlds host urls
  unfolding counted in_flight_at
  counted-in_flight worlds host [] r = refl
  counted-in_flight worlds host (url ∷ urls) r = omega (
    arith,
    (Reach-IsExact (worlds url) (r url)).counter host,
    counted-in_flight worlds host urls r,
  )

  -- When every interceptor has counted its requests, in whatever order they came and went, from the
  -- start, with no host removed, and serves its sound counter's counts, what the scaler's pinger
  -- knows of a host after a fetch is the number of requests for it that are in flight over all
  -- interceptors, modulo 2 ^ 64.
  fetch_counts-in_flight :
      (json : Json f) (get : Text → Option HttpResponse) (worlds : Text → World)
      (clock : Text → Text → ℕ) (port : Text) (endpoints : Option Endpoints) (url : Text)
      (urls : List Text) (arrival : List (Counts f) → List (Counts f))
      → IsFaithful f json
      → ((u : Text)
          → get (u ++ counts_path)
            ≡ new_size_handler f json (clock u) (worlds u).counting.queue_counter)
      → ((u : Text) → Reach (worlds u))
      → ((u : Text) → IsSound (worlds u).counting.queue_counter)
      → endpoints_for_service port endpoints ≡ some (url ∷ urls)
      → ((l : List (Counts f)) → Perm l (arrival l))
      → (got : Counts f) × (fetch_counts f port endpoints (get_counts f json get) arrival
          ≡ some got)
        × ((host : Text) → known f host got ≡ in_flight_at worlds host (url ∷ urls) % word_mod)
  fetch_counts-in_flight json get worlds clock port endpoints url urls arrival h serve r sound e p =
      let memory : Text → Memory = λ u. (worlds u).counting.queue_counter in
      let (got, e', k) =
        fetch_counts_total json h get memory clock serve sound port endpoints url urls arrival e
          p in
      (
        got,
        e',
        λ host. k host ∙ ap (λ n. n % word_mod) (counted-in_flight worlds host (url ∷ urls) r),
      )
