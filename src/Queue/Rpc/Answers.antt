-- ===== src/Queue/Rpc/Answers.antt =====
-- What the scaler gets from an interceptor.
use mathlib.Core.List.{Perm}
use http_add_on.Prelude.{
  ℕ, ◌<◌, ◌≡◌, refl, ap, true, Option, none, some, ◌++◌, inl, inr, Option-cases, ◌>>=◌,
}
use http_add_on.Prelude.Text.{Text}
use http_add_on.Prelude.Dict.{Dict, lookup, text_Eq}
use http_add_on.Prelude.Returns.{Returns, Returns-eq}
use http_add_on.Queue.Float.{Float64}
use http_add_on.Queue.Average.{round_to_n_digits, precision}
use http_add_on.Queue.Memory.{Memory}
use http_add_on.Queue.Memory.Sound.{IsSound}
use http_add_on.Queue.Counts.{Count, Outcome, done, missing, panicked, current}
use http_add_on.Queue.Counts.Current.{Distinct, IsSnapshot, current_total}
use http_add_on.Queue.Rpc.{
  HttpResponse, Json, counts_path, current_error, encode_error, encoded, respond, new_size_handler,
  get_counts,
}

module _ (f : Float64) (json : Json f) where
  abbrev pub IsFinite : f.Carrier → Type 0
  IsFinite a = json.finite a ≡ true

  -- What `encoding/json` and floating-point arithmetic are relied on for. A map of finite rates is
  -- encoded, and decodes as the same map, in an order of its own; plain words are not JSON; a
  -- quotient of integers by a positive one is finite.
  pub record IsFaithful : Type 0 where
    pub round_trip :
        (counts : Dict Text (Count f.Carrier))
        → Distinct counts
        → ((host : Text) (c : Count f.Carrier) → lookup host counts ≡ some c → IsFinite c.rps)
        → Returns (json.encode counts) (λ text. Returns (json.decode text) (Perm counts))
    pub words : json.decode current_error ≡ none
    pub other_words : json.decode encode_error ≡ none
    pub zero_finite : IsFinite f.zero
    pub quotient_finite :
        (a b : ℕ)
        → 0 < b
        → IsFinite (round_to_n_digits f precision (f.divide (f.of_int a) (f.of_int b)))

  -- What the route sends of a counter that is sound: the status 200, with its counts.
  pub new_size_handler_total :
      (clock : Text → ℕ) (q : Memory)
      → IsFaithful
      → IsSound q
      → (counts : Dict Text (Count f.Carrier)) × (text : Text) × (new_size_handler f json clock q
          ≡ some (record { status = 200; body = text }))
        × Returns (json.decode text) (Perm counts)
        × IsSnapshot f clock q.rps_map IsFinite q.concurrent_map counts
  unfolding new_size_handler
  new_size_handler_total clock q h s =
      let (counts, e, snap) = current_total f clock IsFinite q h.zero_finite h.quotient_finite s in
      let (text, e', back) =
        Returns-eq (json.encode counts) (λ text. Returns (json.decode text) (Perm counts))
          (h.round_trip counts snap.distinct snap.rates) in
      (counts, text, rw (e) (ap (λ o. some (encoded o)) e'), back, snap)

  -- The scaler gets, from the route of an interceptor whose counter is sound, that counter's counts
  -- at some order.
  pub get_counts-new_size_handler :
      (get : Text → Option HttpResponse) (url : Text) (clock : Text → ℕ) (q : Memory)
      → IsFaithful
      → IsSound q
      → get (url ++ counts_path) ≡ new_size_handler f json clock q
      → (counts : Dict Text (Count f.Carrier)) × (got : Dict Text (Count f.Carrier)) × (get_counts f
            json get url
          ≡ some got)
        × Perm counts got
        × IsSnapshot f clock q.rps_map IsFinite q.concurrent_map counts
  unfolding get_counts
  get_counts-new_size_handler get url clock q h s e =
      let (counts, text, sent, back, snap) = new_size_handler_total clock q h s in
      let (got, e', same) = Returns-eq (json.decode text) (Perm counts) back in
      (counts, got, rw (e, sent) e', same, snap)

  respond-decode :
      (o : Outcome (Dict Text (Count f.Carrier))) (got : Dict Text (Count f.Carrier))
      → IsFaithful
      → (respond f json o >>= λ resp. json.decode resp.body) ≡ some got
      → (counts : Dict Text (Count f.Carrier)) × (text : Text) × (o ≡ done counts)
        × (json.encode counts ≡ some text)
        × (json.decode text ≡ some got)
  respond-decode panicked got h e = absurd (cc e)
  respond-decode (missing key) got h e = absurd (cc (h.words, e))
  respond-decode (done counts) got h e = elim (Option-cases (json.encode counts)) [
    | inl k ↦ absurd (cc (h.other_words, rw k at e))
    | inr (text, k) ↦ (counts, text, refl, k, rw k at e)
  ]

  -- When the scaler does get counts from the route of an interceptor, they are the decoded text of
  -- that counter's counts: a counter that gives an error or panics, or counts that cannot be encoded,
  -- give the scaler an error, though it reads no status.
  pub get_counts_only :
      (get : Text → Option HttpResponse) (url : Text) (clock : Text → ℕ) (q : Memory)
      (got : Dict Text (Count f.Carrier))
      → IsFaithful
      → get (url ++ counts_path) ≡ new_size_handler f json clock q
      → get_counts f json get url ≡ some got
      → (counts : Dict Text (Count f.Carrier)) × (text : Text) × (current f clock q ≡ done counts)
        × (json.encode counts ≡ some text)
        × (json.decode text ≡ some got)
  unfolding get_counts new_size_handler
  get_counts_only get url clock q got h e k = respond-decode (current f clock q) got h (rw e at k)
