-- ===== src/Operator/Client.antt =====
-- The API's calls that a reconciliation makes, and its answers.
use http_add_on.Prelude.{Bool, Option, List, ◌∷◌, ◌++◌}
use http_add_on.Prelude.Text.{Text}
use http_add_on.Prelude.Dict.{text_Eq}
use http_add_on.Api.{NamespacedName, HttpScaledObject, Reason}
use http_add_on.Operator.ScaledObject.{ScaledObject}

pub data Call : Type 0 where
  get_httpso : NamespacedName → Call
  update update_status : HttpScaledObject → Call
  get_scaled_object : NamespacedName → Call
  create patch delete : ScaledObject → Call

abbrev pub Run : Type 0 → Type 0
Run A = List Call × A

abbrev pub call : {A : Type 0} → Call → Run A → Run A
call c (calls, a) = (c ∷ calls, a)

infixl 5 ◌>>=◌
abbrev pub ◌>>=◌ : {A B : Type 0} → Run A → (A → Run B) → Run B
r >>= f = (r.0 ++ (f r.1).0, (f r.1).1)

pub data Fetched : Type 0 where
  found : HttpScaledObject → Fetched
  not_found get_failed : Fetched

pub data Created : Type 0 where
  created already_exists : Created
  create_failed : Text → Created

-- What the API answers: an update gives the object as it is then, `none` and `false` are errors.
pub record Answers : Type 0 where
  pub on_get : NamespacedName → Fetched
  pub on_update : HttpScaledObject → Option HttpScaledObject
  pub on_update_status : HttpScaledObject → Option HttpScaledObject
  pub on_get_scaled_object : NamespacedName → Option ScaledObject
  pub on_create : ScaledObject → Created
  pub on_patch : ScaledObject → Bool
  -- `controllerutil.SetControllerReference`
  pub set_controller_reference : HttpScaledObject → ScaledObject → Option ScaledObject
  -- the time at which the condition for a reason is created
  pub now : Reason → Text
  -- the address of the external scaler
  pub host_name : Text

pub data Result : Type 0 where
  done requeue_after_error failed panicked : Result
