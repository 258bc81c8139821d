-- ===== src/Queue/Counts.antt =====
-- pkg/queue/queue_counts.go, and `Current` of pkg/queue/queue.go.

pub mod Current
use http_add_on.Prelude.{ℕ, Option, none, some, [], ◌∷◌}
use http_add_on.Prelude.Text.{Text}
use http_add_on.Prelude.Word.{add64}
use http_add_on.Prelude.Dict.{Dict, lookup, insert, text_Eq}
use http_add_on.Queue.Buckets.{RequestsBuckets}
use http_add_on.Queue.Float.{Float64}
use http_add_on.Queue.Average.{window_average}
use http_add_on.Queue.Memory.{Memory}

-- `rps` is a float.
pub record Count (F : Type 0) : Type 0 where
  pub concurrency : ℕ
  pub rps : F

-- What `Current` gives: the counts, or the error that a host has no buckets, or a run-time panic.
pub data Outcome (A : Type 0) : Type 0 where
  done : A → Outcome A
  missing : Text → Outcome A
  panicked : Outcome A

infixl 5 ◌>>=◌
abbrev pub ◌>>=◌ : {A B : Type 0} → Outcome A → (A → Outcome B) → Outcome B
done a >>= f = f a
missing key >>= f = missing key
panicked >>= f = panicked

-- The body of the loop of `Current`, for one host.
abbrev pub count_of :
    (f : Float64) → ℕ → Text → ℕ → Option RequestsBuckets → Outcome (Count f.Carrier)
count_of f now key concurrency none = missing key
count_of f now key concurrency (some buckets) = elim (window_average f buckets now) [
  | none ↦ panicked
  | some average ↦ done (record { concurrency = concurrency; rps = average })
]

-- The loop over the map, in the order of the list; `clock` gives the time read at each host.
unfoldable pub count_all :
    (f : Float64)
    → (Text → ℕ)
    → Dict Text RequestsBuckets
    → Dict Text ℕ
    → Outcome (Dict Text (Count f.Carrier))
count_all f clock rps_map [] = done []
count_all f clock rps_map ((key, concurrency) ∷ rest) = do
  count ← count_of f (clock key) key concurrency (lookup key rps_map)
  counts ← count_all f clock rps_map rest
  done (insert key count counts)

unfoldable pub current : (f : Float64) → (Text → ℕ) → Memory → Outcome (Dict Text (Count f.Carrier))
current f clock r = count_all f clock r.rps_map r.concurrent_map

-- `Aggregate`.
unfoldable pub aggregate :
    (f : Float64) → Count f.Carrier → Dict Text (Count f.Carrier) → Count f.Carrier
aggregate f res [] = res
aggregate f res ((host, count) ∷ rest) =
    aggregate f
      (record {
        concurrency = add64 res.concurrency count.concurrency;
        rps = f.plus res.rps count.rps;
      })
      rest
