-- ===== src/Interceptor/Tls/Forwarding.antt =====
-- The TLS settings of runProxyServer in interceptor/main.go: for its clients, and for the connections
-- to the workloads.

pub mod Trusted
use http_add_on.Prelude.{Bool, true, false, Option, none, some, List, [], map}
use http_add_on.Prelude.Text.{Text}
use http_add_on.Interceptor.Tls.{Certificate, Files, TlsConfig, get_tls_config}

-- A server that has the settings, or none without TLS; or the process exits.
pub data ProxyTls : Type 0 where
  exits : ProxyTls
  served : Option TlsConfig → ProxyTls

abbrev pub or_exit : Option TlsConfig → ProxyTls
or_exit none = exits
or_exit (some cfg) = served (some cfg)

unfoldable pub proxy_tls : Files → Bool → Text → Text → Text → Bool → ProxyTls
proxy_tls files false cert_path key_path cert_store_paths skip_verify = served none
proxy_tls files true cert_path key_path cert_store_paths skip_verify =
    or_exit (get_tls_config files cert_path key_path cert_store_paths skip_verify)

-- With no `root_cas` the system's pool is used as it is; else it is extended with these.
pub record ForwardingTlsCfg : Type 0 where
  pub root_cas : Option (List Text)
  pub certificates : List Certificate
  pub insecure_skip_verify : Bool

-- `maps.Values`, in the order of the list.
abbrev pub presented : TlsConfig → List Certificate
presented cfg = map (λ (pair : Text × Certificate). pair.1) cfg.uri_domains_to_certs

unfoldable pub forwarding_tls_cfg : Option TlsConfig → ForwardingTlsCfg
forwarding_tls_cfg none = record {
  root_cas = none;
  certificates = [];
  insecure_skip_verify = false;
}
forwarding_tls_cfg (some cfg) = record {
  root_cas = some cfg.root_cas;
  certificates = presented cfg;
  insecure_skip_verify = cfg.insecure_skip_verify;
}
