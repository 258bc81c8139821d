-- ===== src/Config/Serving.antt =====
-- `Validate` of interceptor/config/validate.go, on the two settings of interceptor/config/serving.go
-- that it changes. Integers and durations are 64-bit patterns.
use http_add_on.Prelude.{
  ℕ, ◌*◌, ◌%◌, ◌≡◌, refl, ap, Bool, true, false, not, ◌&&◌, if◌then◌else◌, arith,
}
use http_add_on.Prelude.Text.{codes}
use http_add_on.Prelude.Word.{lt64, word_mod}
use http_add_on.Queue.Time.{millisecond}
use http_add_on.Queue.Memory.{is_some}
use http_add_on.Config.Env.{Env}

pub record Serving : Type 0 where
  pub deployment_cache_poll_interval_ms : ℕ
  pub endpoints_cache_poll_interval_ms : ℕ

pub data Validated : Type 0 where
  -- the configuration as it is then
  valid : Serving → Validated
  mutually_exclusive timeout_too_short : Validated

abbrev pub poll_interval : Serving → ℕ
poll_interval cfg = cfg.endpoints_cache_poll_interval_ms * millisecond % word_mod

-- The deprecated variable in place of the new one.
abbrev pub replace_deprecated : Bool → Serving → Serving
replace_deprecated false cfg = cfg
replace_deprecated true cfg = record {
  endpoints_cache_poll_interval_ms = cfg.deployment_cache_poll_interval_ms;
  deployment_cache_poll_interval_ms = 0;
}

abbrev pub check_timeout : ℕ → Serving → Validated
check_timeout workload_replicas cfg =
    if lt64 workload_replicas (poll_interval cfg) then timeout_too_short else valid cfg

unfoldable pub validate : Env → Serving → ℕ → Validated
validate env cfg workload_replicas =
    let deployment_exists =
      is_some (env (codes "KEDA_HTTP_DEPLOYMENT_CACHE_POLLING_INTERVAL_MS")) in
    let endpoints_exists = is_some (env (codes "KEDA_HTTP_ENDPOINTS_CACHE_POLLING_INTERVAL_MS")) in
    if deployment_exists && endpoints_exists
    then mutually_exclusive
    else check_timeout workload_replicas
        (replace_deprecated (deployment_exists && not endpoints_exists) cfg)

abbrev deployment_set : Env → Bool
deployment_set env = is_some (env (codes "KEDA_HTTP_DEPLOYMENT_CACHE_POLLING_INTERVAL_MS"))

abbrev endpoints_set : Env → Bool
endpoints_set env = is_some (env (codes "KEDA_HTTP_ENDPOINTS_CACHE_POLLING_INTERVAL_MS"))

check_timeout-valid :
    (w : ℕ) (cfg c : Serving)
    → check_timeout w cfg ≡ valid c
    → (c ≡ cfg) × (lt64 w (poll_interval c) ≡ false)
check_timeout-valid w cfg c e = ground (arith, e)

-- A configuration is accepted only if not both of the variables for the polling interval are set; the
-- interval in use then is that of the variable that is, the deprecated one included, and the
-- workload's timeout is no shorter.
validate-valid :
    (env : Env) (cfg c : Serving) (workload_replicas : ℕ)
    → validate env cfg workload_replicas ≡ valid c
    → ((deployment_set env && endpoints_set env) ≡ false)
      × (c.endpoints_cache_poll_interval_ms ≡ (
          if deployment_set env
          then cfg.deployment_cache_poll_interval_ms
          else cfg.endpoints_cache_poll_interval_ms))
      × (lt64 workload_replicas (poll_interval c) ≡ false)
unfolding validate
validate-valid env cfg c w e = by_set (deployment_set env) (endpoints_set env) e
  where
    by_set :
        (d p : Bool)
        → (if d && p
            then mutually_exclusive
            else check_timeout w (replace_deprecated (d && not p) cfg))
          ≡ valid c
        → ((d && p) ≡ false)
          × (c.endpoints_cache_poll_interval_ms ≡ (
              if d
              then cfg.deployment_cache_poll_interval_ms
              else cfg.endpoints_cache_poll_interval_ms))
          × (lt64 w (poll_interval c) ≡ false)
    by_set true true e = absurd (cc e)
    by_set true false e =
        let (same, long) = check_timeout-valid w (replace_deprecated true cfg) c e in
        (refl, ap (λ x. x.endpoints_cache_poll_interval_ms) same, long)
    by_set false p e =
        let (same, long) = check_timeout-valid w cfg c e in
        (refl, ap (λ x. x.endpoints_cache_poll_interval_ms) same, long)
