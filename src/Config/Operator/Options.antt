-- ===== src/Config/Operator/Options.antt =====
-- What holds when the operator starts.
use http_add_on.Prelude.{ℕ, ◌≡◌, refl, true, Option, none, some}
use http_add_on.Prelude.Text.{Text, codes}
use http_add_on.Prelude.Returns.{Ensures, Ensures-bind, Ensures_any}
use http_add_on.Config.Env.{Env, get, or_else, is_int32, resolve_os_env_duration}
use http_add_on.Config.Env.Numbers.{get_int32_or_bound}
use http_add_on.Config.Leader.{
  LeaderError, IsOrdered, validate_leader_election_config,
  validate_leader_election_config-IsOrdered, default_lease_duration, default_renew_deadline,
  default_retry_period,
}
use http_add_on.Config.Operator.{
  ExternalScaler, Base, new_external_scaler_from_env, ManagerOptions, accepted, manager_options,
}

abbrev IsPort : ExternalScaler → Type 0
IsPort e = is_int32 e.port ≡ true

new_external_scaler_from_env-IsPort :
    (env : Env) → Ensures (new_external_scaler_from_env env) IsPort
unfolding new_external_scaler_from_env
new_external_scaler_from_env-IsPort env =
    Ensures-bind (get env (codes "KEDAHTTP_OPERATOR_EXTERNAL_SCALER_SERVICE")) _ (λ s. Unit {0})
      IsPort (Ensures_any _)
      λ s t. get_int32_or_bound env (codes "KEDAHTTP_OPERATOR_EXTERNAL_SCALER_PORT") 8091 refl

-- The port of the external scaler is an `int32`, and the durations of the election are in order.
pub record IsConfigured (o : ManagerOptions) : Type 0 where
  pub port : IsPort o.external_scaler_cfg
  pub ordered :
      IsOrdered
        (or_else default_lease_duration o.lease_duration)
        (or_else default_renew_deadline o.renew_deadline)
        (or_else default_retry_period o.retry_period)

accepted-IsConfigured :
    (o : ManagerOptions) (err : Option LeaderError)
    → IsPort o.external_scaler_cfg
    → validate_leader_election_config o.lease_duration o.renew_deadline o.retry_period ≡ err
    → Ensures (accepted err o) IsConfigured
accepted-IsConfigured o (some err) p e = tt
accepted-IsConfigured o none p e = record {
  port = p;
  ordered =
      (validate_leader_election_config-IsOrdered o.lease_duration o.renew_deadline o.retry_period).0
        e;
}

-- When the operator starts, and does not exit with an error before, the external scaler's port is an
-- `int32` and the durations of the leader election, with the defaults for those that are not set, are
-- positive and in order, whatever the environment and however durations are parsed.
pub manager_options-IsConfigured :
    (env : Env) (parse_duration : Text → Option ℕ) (new_base_from_env : Env → Option Base)
    → Ensures (manager_options env parse_duration new_base_from_env) IsConfigured
unfolding manager_options
manager_options-IsConfigured env parse_duration new_base_from_env =
    Ensures-bind (new_external_scaler_from_env env) _ IsPort IsConfigured
      (new_external_scaler_from_env-IsPort env)
      λ scaler port.
        Ensures-bind (new_base_from_env env) _ (λ b. Unit {0}) IsConfigured (Ensures_any _)
          λ base b.
            Ensures-bind (resolve_os_env_duration parse_duration env _) _ (λ d. Unit {0})
              IsConfigured (Ensures_any _)
              λ lease l.
                Ensures-bind (resolve_os_env_duration parse_duration env _) _ (λ d. Unit {0})
                  IsConfigured (Ensures_any _)
                  λ renew n.
                    Ensures-bind (resolve_os_env_duration parse_duration env _) _ (λ d. Unit {0})
                      IsConfigured (Ensures_any _)
                      λ retry r.
                        accepted-IsConfigured _ (validate_leader_election_config lease renew retry)
                          port refl
