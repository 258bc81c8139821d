-- ===== src/Process/Exit.antt =====
-- How the processes end.
use http_add_on.Prelude.{
  ◌≡◌, refl, Bool, true, false, not, ◌&&◌, Option, none, some, List, [], ◌∷◌, map, if◌then◌else◌,
  Bool-cases, inl, inr, arith,
}
use http_add_on.Process.{
  Err, canceled, deadline_exceeded, server_closed, other, wrapping, context_canceled, is_sentinel,
  err_server_closed, is_any, is_ignored_err, unless_ignored, group_wait, is_fatal,
}
use http_add_on.Process.Scaler
use http_add_on.Process.Interceptor

-- Whether a result does no harm: none is there, or else it is not a cancellation.
abbrev Judged : Option Err → Bool → Type 0
Judged none b = b ≡ true
Judged (some e) b = (is_sentinel e context_canceled ≡ false) × (b ≡ false)

-- Nothing happened, or the context was canceled or the server closed, whatever wraps that.
abbrev pub is_benign : Option Err → Bool
is_benign none = true
is_benign (some canceled) = true
is_benign (some deadline_exceeded) = false
is_benign (some server_closed) = true
is_benign (some (other message)) = false
is_benign (some (wrapping message e)) = is_benign (some e)

-- The sentinels that the mains ignore are those two.
is_ignored_err-is_benign : (err : Option Err) → is_ignored_err err ≡ is_benign err
unfolding is_ignored_err is_any
is_ignored_err-is_benign none = refl
is_ignored_err-is_benign (some canceled) = refl
is_ignored_err-is_benign (some deadline_exceeded) = refl
is_ignored_err-is_benign (some server_closed) = refl
is_ignored_err-is_benign (some (other message)) = refl
is_ignored_err-is_benign (some (wrapping message e)) = is_ignored_err-is_benign (some e)

ignored-Judged : (err : Option Err) → Judged (unless_ignored err) (is_ignored_err err)
unfolding is_ignored_err is_any
ignored-Judged none = refl
ignored-Judged (some e) = elim (Bool-cases (is_sentinel e context_canceled)) [
  | inl c ↦ rw c refl
  | inr c ↦ elim (Bool-cases (is_sentinel e err_server_closed)) [
    | inl d ↦ rw (c, d) refl
    | inr d ↦ rw (c, d) (c, refl)
  ]
]

unless_ignored-Judged : (err : Option Err) → Judged (unless_ignored err) (is_benign err)
unless_ignored-Judged err = rw (← is_ignored_err-is_benign err) (ignored-Judged err)

module _ {T : Type 0} where
  abbrev pub AllKnown : (T → Type 0) → List T → Type 0
  AllKnown Known [] = Unit
  AllKnown Known (t ∷ tasks) = Known t × AllKnown Known tasks

  abbrev pub all_harmless : (T → Bool) → List T → Bool
  all_harmless harmless [] = true
  all_harmless harmless (t ∷ tasks) = harmless t && all_harmless harmless tasks

module _ {T : Type 0} (returns : T → Option Err) (harmless : T → Bool) (Known : T → Type 0)
    (judged : (t : T) → Known t → Judged (returns t) (harmless t)) where
  -- The first error is fatal.
  first_counts :
      (r : Option Err) (b rest : Bool) (others : List (Option Err))
      → Judged r b
      → is_fatal (group_wait others) ≡ not rest
      → is_fatal (group_wait (r ∷ others)) ≡ not (b && rest)
  unfolding group_wait
  first_counts none b rest others j h = rw j h
  first_counts (some e) b rest others j h = rw (j.0, j.1) refl

  group_wait-is_fatal :
      (tasks : List T)
      → AllKnown Known tasks
      → is_fatal (group_wait (map returns tasks)) ≡ not (all_harmless harmless tasks)
  unfolding group_wait
  group_wait-is_fatal [] h = refl
  group_wait-is_fatal (t ∷ tasks) h =
      first_counts (returns t) (harmless t) (all_harmless harmless tasks) (map returns tasks)
        (judged t h.0) (group_wait-is_fatal tasks h.1)

abbrev pub is_nil : Option Err → Bool
is_nil none = true
is_nil (some e) = false

abbrev NotCanceled : Option Err → Type 0
NotCanceled none = Unit
NotCanceled (some e) = is_sentinel e context_canceled ≡ false

is_nil-Judged : (err : Option Err) → NotCanceled err → Judged err (is_nil err)
is_nil-Judged none h = refl
is_nil-Judged (some e) h = (h, refl)

-- The profiling server does not look at its context, and its error passes unfiltered.
abbrev pub KnownScaler : Scaler.Task × Option Err → Type 0
KnownScaler (Scaler.endpoints_informer, err) = Unit
KnownScaler (Scaler.httpso_informer, err) = Unit
KnownScaler (Scaler.queue_pinger, err) = Unit
KnownScaler (Scaler.profiling, err) = NotCanceled err
KnownScaler (Scaler.grpc_server, err) = Unit

abbrev pub scaler_harmless : Scaler.Task × Option Err → Bool
scaler_harmless (Scaler.endpoints_informer, err) = true
scaler_harmless (Scaler.httpso_informer, err) = true
scaler_harmless (Scaler.queue_pinger, err) = is_benign err
scaler_harmless (Scaler.profiling, err) = is_nil err
scaler_harmless (Scaler.grpc_server, err) = is_benign err

scaler-Judged :
    (t : Scaler.Task × Option Err) → KnownScaler t → Judged (Scaler.finished t) (scaler_harmless t)
scaler-Judged (Scaler.endpoints_informer, err) h = refl
scaler-Judged (Scaler.httpso_informer, err) h = refl
scaler-Judged (Scaler.queue_pinger, err) h = unless_ignored-Judged err
scaler-Judged (Scaler.profiling, err) h = is_nil-Judged err h
scaler-Judged (Scaler.grpc_server, err) h = unless_ignored-Judged err

abbrev pub KnownInterceptor : Interceptor.Task × Option Err → Type 0
KnownInterceptor (Interceptor.endpoints_cache, err) = Unit
KnownInterceptor (Interceptor.routing_table, err) = Unit
KnownInterceptor (Interceptor.admin_server, err) = Unit
KnownInterceptor (Interceptor.metrics_server, err) = Unit
KnownInterceptor (Interceptor.tls_proxy, err) = Unit
KnownInterceptor (Interceptor.proxy, err) = Unit
KnownInterceptor (Interceptor.profiling, err) = NotCanceled err

abbrev pub interceptor_harmless : Interceptor.Task × Option Err → Bool
interceptor_harmless (Interceptor.endpoints_cache, err) = true
interceptor_harmless (Interceptor.routing_table, err) = is_benign err
interceptor_harmless (Interceptor.admin_server, err) = is_benign err
interceptor_harmless (Interceptor.metrics_server, err) = is_benign err
interceptor_harmless (Interceptor.tls_proxy, err) = is_benign err
interceptor_harmless (Interceptor.proxy, err) = is_benign err
interceptor_harmless (Interceptor.profiling, err) = is_nil err

interceptor-Judged :
    (t : Interceptor.Task × Option Err)
    → KnownInterceptor t
    → Judged (Interceptor.finished t) (interceptor_harmless t)
interceptor-Judged (Interceptor.endpoints_cache, err) h = refl
interceptor-Judged (Interceptor.routing_table, err) h = unless_ignored-Judged err
interceptor-Judged (Interceptor.admin_server, err) h = unless_ignored-Judged err
interceptor-Judged (Interceptor.metrics_server, err) h = unless_ignored-Judged err
interceptor-Judged (Interceptor.tls_proxy, err) h = unless_ignored-Judged err
interceptor-Judged (Interceptor.proxy, err) h = unless_ignored-Judged err
interceptor-Judged (Interceptor.profiling, err) h = is_nil-Judged err h

-- The scaler exits with 0 exactly if everything before the group could be made, its profiling server
-- gives no error, and every error of another part is nil, or is or wraps a cancellation or that of a
-- closed server; else with 1. The same says when the interceptor logs its goodbye, but it exits with 1
-- also then. For profiling servers that give no cancellation, and whatever order the parts end in.
pub mains_end :
    (s : Scaler.Setup) (scaler_tasks : List (Scaler.Task × Option Err)) (i : Interceptor.Setup)
    (interceptor_tasks : List (Interceptor.Task × Option Err))
    → AllKnown KnownScaler scaler_tasks
    → AllKnown KnownInterceptor interceptor_tasks
    → (Scaler.main s scaler_tasks ≡ (
        if s.kubernetes_config
          && s.kubernetes_client
          && s.http_client
          && all_harmless scaler_harmless scaler_tasks
        then 0
        else 1))
      × (Interceptor.main i interceptor_tasks ≡ (
        i.valid
            && i.kubernetes_config
            && i.kubernetes_client
            && i.http_client
            && i.routing_table
            && all_harmless interceptor_harmless interceptor_tasks,
        1,
      ))
unfolding Scaler.main Interceptor.main
mains_end s scaler_tasks i interceptor_tasks h k =
    let scaler =
      group_wait-is_fatal Scaler.finished scaler_harmless KnownScaler scaler-Judged scaler_tasks
        h in
    let interceptor =
      group_wait-is_fatal Interceptor.finished interceptor_harmless KnownInterceptor
        interceptor-Judged interceptor_tasks k in
    (rw scaler (ground arith), rw interceptor (ground arith))
