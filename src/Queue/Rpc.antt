-- ===== src/Queue/Rpc.antt =====
-- pkg/queue/queue_rpc.go: the interceptor's `/queue` route, and the scaler's request for it. The
-- network is an argument, `none` for a request that fails; the HTTP server turns a handler's panic
-- into such a failure.
pub mod Answers
use http_add_on.Prelude.{ℕ, Bool, Option, none, some, ◌≡◌, ◌++◌, ◌>>=◌}
use http_add_on.Prelude.Text.{Text, codes}
use http_add_on.Prelude.Dict.{Dict}
use http_add_on.Queue.Float.{Float64}
use http_add_on.Queue.Memory.{Memory}
use http_add_on.Queue.Counts.{Count, Outcome, done, missing, panicked, current}

pub record HttpResponse : Type 0 where
  pub status : ℕ
  pub body : Text

-- `encoding/json`, for the counts: `Encode`, which fails for a rate that is not finite, and `Decode`.
pub record Json (f : Float64) : Type 0 where
  pub finite : f.Carrier → Bool
  pub encode : Dict Text (Count f.Carrier) → Option Text
  pub decode : Text → Option (Dict Text (Count f.Carrier))

abbrev pub counts_path : Text
counts_path = codes "/queue"

abbrev pub current_error : Text
current_error = codes "error getting queue size"

abbrev pub encode_error : Text
encode_error = codes "error encoding queue counts"

-- A status that is not written is 200.
abbrev pub encoded : Option Text → HttpResponse
encoded none = record { status = 500; body = encode_error }
encoded (some text) = record { status = 200; body = text }

module _ (f : Float64) (json : Json f) where
  abbrev pub respond : Outcome (Dict Text (Count f.Carrier)) → Option HttpResponse
  respond (done cur) = some (encoded (json.encode cur))
  respond (missing key) = some (record { status = 500; body = current_error })
  respond panicked = none

  unfoldable pub new_size_handler : (Text → ℕ) → Memory → Option HttpResponse
  new_size_handler clock q = respond (current f clock q)

  -- The status of the response is not read.
  unfoldable pub get_counts :
      (Text → Option HttpResponse) → Text → Option (Dict Text (Count f.Carrier))
  get_counts get interceptor_url = do
    resp ← get (interceptor_url ++ counts_path)
    json.decode resp.body
