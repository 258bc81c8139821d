-- ===== src/Queue/Counts/Current.antt =====
-- What `Current` reports, when the counter is sound.
use mathlib.Core.Option
use http_add_on.Prelude.{
  ℕ, ◌<◌, ◌≡◌, refl, ap, ◌∙◌, sym, true, Option, none, some, [], ◌∷◌, arith, if◌then◌else◌, ◌==◌,
  leb, ltb, Bool-cases, inl, inr,
}
use http_add_on.Prelude.Text.{Text, text_eq, text_eq_iff, text_eq_self}
use http_add_on.Prelude.Dict.{Dict, lookup, insert, text_Eq, lookup-insert}
use http_add_on.Prelude.Returns.{Returns, Returns-eq, Returns-if, Returns-bind}
use http_add_on.Queue.Time.{truncate, sub_time}
use http_add_on.Queue.Buckets.{RequestsBuckets, time_to_index}
use http_add_on.Queue.Buckets.Healthy.{IsHealthy, time_to_index_total}
use http_add_on.Queue.Float.{Float64}
use http_add_on.Queue.Average.{window_average, valid_buckets, round_to_n_digits, precision}
use http_add_on.Queue.Memory.{Memory, is_some}
use http_add_on.Queue.Memory.Sound.{IsSound, lookup-IsHealthy}
use http_add_on.Queue.Counts.{Count, Outcome, done, missing, panicked, count_of, count_all, current}

valid_buckets_total : (t : RequestsBuckets) → IsHealthy t → Returns (valid_buckets t) (λ b. 0 < b)
unfolding valid_buckets
valid_buckets_total t h =
    Returns-if (λ b. 0 < b) (t.granularity == 0) _ _ (λ e. absurd (ground (arith, h.granular)))
      (λ _. ground (arith, h.sized))

-- Healthy buckets have an average, which is zero or a rounded quotient by a positive number.
pub window_average_total :
    (f : Float64) (P : f.Carrier → Type 0) (t : RequestsBuckets) (now : ℕ)
    → P f.zero
    → ((a b : ℕ) → 0 < b → P (round_to_n_digits f precision (f.divide (f.of_int a) (f.of_int b))))
    → IsHealthy t
    → Returns (window_average f t now) P
unfolding window_average
window_average_total f P t now z q h =
    let at = truncate now t.granularity in
    Returns-if P (leb at t.last_write) _ _
      (λ _.
        Returns-bind (valid_buckets t) _ (λ b. 0 < b) P (valid_buckets_total t h)
          λ b pos. q t.window_total b pos)
      λ _.
        Returns-if P (ltb (sub_time at t.last_write) t.window) _ _
          (λ _.
            Returns-bind (time_to_index t t.last_write) _ (λ j. Unit {0}) P
              (time_to_index_total t t.last_write h)
              λ i _.
                Returns-bind (time_to_index t at) _ (λ j. Unit {0}) P (time_to_index_total t at h)
                  λ j _.
                    Returns-bind (valid_buckets t) _ (λ b. 0 < b) P (valid_buckets_total t h)
                      λ b pos. q _ b pos)
          (λ _. z)

-- No key stands twice.
unfoldable pub Distinct : {V : Type 0} → Dict Text V → Type 0
Distinct [] = Unit {0}
Distinct ((k, v) ∷ m) = (lookup k m ≡ none) × Distinct m

insert-Distinct :
    {V : Type 0} (k : Text) (v : V) (m : Dict Text V) → Distinct m → Distinct (insert k v m)
unfolding Distinct insert lookup
insert-Distinct k v [] h = (refl, tt)
insert-Distinct k v ((j, w) ∷ m) (h, hs) = elim (Bool-cases (text_eq j k)) [
  | inl e ↦ rw e (ap (λ i. lookup i m) (sym ((text_eq_iff j k).0 e)) ∙ h, hs)
  | inr e ↦ rw e (
    lookup-insert k j v m ∙ ground (arith, text_eq_iff k j, text_eq_iff j k, h),
    insert-Distinct k v m hs,
  )
]

abbrev of_done : {A : Type 0} → Outcome A → Option A
of_done (done a) = some a
of_done (missing key) = none
of_done panicked = none

module _ (f : Float64) (clock : Text → ℕ) (rps_map : Dict Text RequestsBuckets) where
  -- The count of one host, out of the two maps.
  unfoldable pub count_for : Dict Text ℕ → Text → Option (Count f.Carrier)
  count_for conc host = elim (lookup host conc) [
    | none ↦ none
    | some n ↦ of_done (count_of f (clock host) host n (lookup host rps_map))
  ]

  module _ (P : f.Carrier → Type 0) where
    pub record IsSnapshot (conc : Dict Text ℕ) (counts : Dict Text (Count f.Carrier)) : Type 0 where
      pub each : (host : Text) → lookup host counts ≡ count_for conc host
      pub concurrencies :
          (host : Text) → Option.map (λ c. c.concurrency) (lookup host counts) ≡ lookup host conc
      pub distinct : Distinct counts
      pub rates : (host : Text) (c : Count f.Carrier) → lookup host counts ≡ some c → P c.rps

    module _ (z : P f.zero)
        (q : (a b : ℕ)
          → 0 < b
          → P (round_to_n_digits f precision (f.divide (f.of_int a) (f.of_int b)))) where
      count_of-eq :
          (key : Text) (n : ℕ) (b : RequestsBuckets) (a : f.Carrier)
          → lookup key rps_map ≡ some b
          → window_average f b (clock key) ≡ some a
          → count_of f (clock key) key n (lookup key rps_map)
            ≡ done (record { concurrency = n; rps = a })
      count_of-eq key n b a found avg = rw (found, count_of, avg) refl

      count_of_total :
          (key : Text) (n : ℕ)
          → Returns (lookup key rps_map) IsHealthy
          → (c : Count f.Carrier) × (count_of f (clock key) key n (lookup key rps_map) ≡ done c)
            × (c.concurrency ≡ n)
            × P c.rps
      count_of_total key n h =
          let (b, found, healthy) = Returns-eq (lookup key rps_map) IsHealthy h in
          let (a, avg, pa) =
            Returns-eq (window_average f b (clock key)) P
              (window_average_total f P b (clock key) z q healthy) in
          (record { concurrency = n; rps = a }, count_of-eq key n b a found avg, refl, pa)

      count_of_host :
          (key host : Text) (n : ℕ) (c : Count f.Carrier)
          → count_of f (clock key) key n (lookup key rps_map) ≡ done c
          → text_eq key host ≡ true
          → some c ≡ of_done (count_of f (clock host) host n (lookup host rps_map))
      count_of_host key host n c e y =
          sym (ap of_done e)
          ∙ ap (λ k. of_done (count_of f (clock k) k n (lookup k rps_map)))
              ((text_eq_iff key host).0 y)

      count_for-head :
          (key : Text) (n : ℕ) (conc : Dict Text ℕ) (c : Count f.Carrier) (host : Text)
          → count_of f (clock key) key n (lookup key rps_map) ≡ done c
          → (if text_eq key host then some c else count_for conc host)
            ≡ count_for ((key, n) ∷ conc) host
      unfolding count_for lookup
      count_for-head key n conc c host e = elim (Bool-cases (text_eq key host)) [
        | inl y ↦ rw (y, count_for, lookup) (count_of_host key host n c e y)
        | inr y ↦ rw (y, count_for, lookup) refl
      ]

      count_all-IsSnapshot :
          (conc : Dict Text ℕ)
          → ((host : Text)
              → is_some (lookup host conc) ≡ true
              → Returns (lookup host rps_map) IsHealthy)
          → (counts : Dict Text (Count f.Carrier)) × (count_all f clock rps_map conc ≡ done counts)
            × IsSnapshot conc counts
      unfolding count_all count_for lookup Distinct
      count_all-IsSnapshot [] h = (
        [],
        refl,
        record {
          each = λ host. refl;
          concurrencies = λ host. refl;
          distinct = tt;
          rates = λ host c e. absurd (cc);
        },
      )
      count_all-IsSnapshot ((key, n) ∷ conc) h =
          let (c, ec, en, pc) = count_of_total key n (h key (rw (text_eq_self key) refl)) in
          let (counts, e, s) = count_all-IsSnapshot conc (λ host k. h host (ground (arith, k))) in
          (
            insert key c counts,
            rw (ec, e) refl,
            record {
              each = λ host.
                  lookup-insert key host c counts
                  ∙ rw (s.each host) (count_for-head key n conc c host ec);
              concurrencies =
                  λ host. ground (arith, lookup-insert key host c counts, s.concurrencies host, en);
              distinct = insert-Distinct key c counts s.distinct;
              rates = λ host d k.
                  ground (arith, s.rates host d, rw (lookup-insert key host c counts) at k);
            },
          )

-- A sound counter gives its counts: each host that the one map has is counted, with its concurrency
-- and the average of its buckets at the time of its turn, which are what its count on its own would
-- be; no host is there twice, and each average has what zero and every rounded quotient by a positive
-- number have.
pub current_total :
    (f : Float64) (clock : Text → ℕ) (P : f.Carrier → Type 0) (r : Memory)
    → P f.zero
    → ((a b : ℕ) → 0 < b → P (round_to_n_digits f precision (f.divide (f.of_int a) (f.of_int b))))
    → IsSound r
    → (counts : Dict Text (Count f.Carrier)) × (current f clock r ≡ done counts)
      × IsSnapshot f clock r.rps_map P r.concurrent_map counts
unfolding current
current_total f clock P r z q h =
    count_all-IsSnapshot f clock r.rps_map P z q r.concurrent_map
      λ host k. lookup-IsHealthy r host h k
