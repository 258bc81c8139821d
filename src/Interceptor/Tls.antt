-- ===== src/Interceptor/Tls.antt =====
-- `addCert` and `getTLSConfig` of interceptor/main.go. The file system and the parsing of
-- certificates are arguments.

pub mod Named
pub mod Served
pub mod Forwarding
use http_add_on.Prelude.{
  ℕ, ◌-◌, Bool, true, false, not, ◌&&◌, Option, none, some, List, [], ◌∷◌, ◌++◌, ◌==◌, ◌>>=◌,
  if◌then◌else◌, length, take, drop, map,
}
use http_add_on.Prelude.Text.{Text, text_eq, codes}
use http_add_on.Prelude.Dict.{Dict, lookup, insert, text_Eq}

-- A parsed certificate, with the names that it is for.
pub record Leaf : Type 0 where
  pub dns_names : List Text
  pub ip_addresses : List Text
  pub uris : List Text

pub record Certificate : Type 0 where
  pub chain : List Text
  pub leaf : Option Leaf

-- What `filepath.Walk` visits: a path that it cannot read, a directory, or a file.
pub data Visit : Type 0 where
  visit_error : Text → Visit
  directory : Text → Visit
  file : Text → Visit

-- The libraries: `none` is an error.
pub record Files : Type 0 where
  pub load_x509_key_pair : Text → Text → Option Certificate
  pub parse_certificate : Text → Option Leaf
  pub read_file : Text → Option Text
  pub walk : Text → List Visit

abbrev pub Certs : Type 0
Certs = Dict Text Certificate

unfoldable pub add_names : List Text → Certificate → Certs → Certs
add_names [] cert m = m
add_names (n ∷ names) cert m = add_names names cert (insert n cert m)

abbrev pub with_leaf : Certificate → Option Leaf → Option (Certificate × Leaf)
with_leaf cert none = none
with_leaf cert (some leaf) = some (record cert { leaf = some leaf }, leaf)

abbrev pub parse_first : Files → Certificate → List Text → Option (Certificate × Leaf)
parse_first files cert [] = none
parse_first files cert (raw ∷ rest) = with_leaf cert (files.parse_certificate raw)

-- `if cert.Leaf == nil`
abbrev pub ensure_leaf : Files → Certificate → Option Leaf → Option (Certificate × Leaf)
ensure_leaf files cert none = parse_first files cert cert.chain
ensure_leaf files cert (some leaf) = some (cert, leaf)

-- The certificate, with its parsed leaf set.
unfoldable pub load_cert : Files → Text → Text → Option (Certificate × Leaf)
load_cert files cert_path key_path = do
  loaded ← files.load_x509_key_pair cert_path key_path
  ensure_leaf files loaded loaded.leaf

unfoldable pub add_cert : Files → Certs → Text → Text → Option (Certificate × Certs)
add_cert files m cert_path key_path = do
  (cert, leaf) ← load_cert files cert_path key_path
  let dns = add_names leaf.dns_names cert m
  let ips = add_names leaf.ip_addresses cert dns
  some (cert, add_names leaf.uris cert ips)

-- `strings.HasSuffix` and `strings.Split` at a comma.
abbrev pub has_suffix : Text → Text → Bool
has_suffix s suffix = text_eq (drop (length s - length suffix) s) suffix

abbrev pub add_to_first : ℕ → List Text → List Text
add_to_first c [] = (c ∷ []) ∷ []
add_to_first c (part ∷ parts) = (c ∷ part) ∷ parts

unfoldable pub split_commas : Text → List Text
split_commas [] = [] ∷ []
split_commas (c ∷ s) =
    let rest = split_commas s in if c == b',' then [] ∷ rest else add_to_first c rest

pub record Store : Type 0 where
  pub cert_files : Dict Text Text
  pub key_files : Dict Text Text

abbrev pub without : ℕ → Text → Text
without n path = take (length path - n) path

-- The `switch` on the ending of a file's path.
unfoldable pub store_file : Store → Text → Store
store_file st path =
    if has_suffix path (codes "-key.pem")
    then record st { key_files = insert (without 8 path) path st.key_files }
    else if has_suffix path (codes ".pem")
    then record st { cert_files = insert (without 4 path) path st.cert_files }
    else if has_suffix path (codes ".key")
    then record st { key_files = insert (without 4 path) path st.key_files }
    else if has_suffix path (codes ".crt")
    then record st { cert_files = insert (without 4 path) path st.cert_files }
    else st

-- The callback of the walk, over what it visits.
unfoldable pub visit_all : Store → List Visit → Option Store
visit_all st [] = some st
visit_all st (visit_error path ∷ visits) = none
visit_all st (directory path ∷ visits) = visit_all st visits
visit_all st (file path ∷ visits) = visit_all (store_file st path) visits

unfoldable pub walk_all : Files → Store → List Text → Option Store
walk_all files st [] = some st
walk_all files st (dir ∷ dirs) = do next ← visit_all st (files.walk dir); walk_all files next dirs

-- What is set of the configuration: the PEM texts that the system's pool is extended with, the map and
-- the default that `GetCertificate` looks at.
pub record TlsConfig : Type 0 where
  pub root_cas : List Text
  pub insecure_skip_verify : Bool
  pub uri_domains_to_certs : Certs
  pub default_cert : Option Certificate

abbrev pub add_pair : Files → TlsConfig → Text → Text → Option (Certificate × TlsConfig)
add_pair files cfg cert_path key_path = do
  (cert, certs) ← add_cert files cfg.uri_domains_to_certs cert_path key_path
  raw_cert ← files.read_file cert_path
  some (cert, record cfg { root_cas = cfg.root_cas ++ raw_cert ∷ []; uri_domains_to_certs = certs })

-- The loop over `certFiles`, which Go visits in any order, here the list's.
unfoldable pub add_store : Files → Dict Text Text → TlsConfig → Dict Text Text → Option TlsConfig
add_store files key_files cfg [] = some cfg
add_store files key_files cfg ((cert_id, cert_path) ∷ rest) = do
  key_path ← lookup cert_id key_files
  (cert, next) ← add_pair files cfg cert_path key_path
  add_store files key_files next rest

-- The certificate of the two paths, if both are set; it is the default.
abbrev pub add_default : Files → TlsConfig → Text → Text → Option TlsConfig
add_default files cfg cert_path key_path =
    if not (text_eq cert_path []) && not (text_eq key_path [])
    then (do
      (cert, next) ← add_pair files cfg cert_path key_path
      some (record next { default_cert = some cert }))
    else some cfg

abbrev pub add_stores : Files → TlsConfig → Text → Option TlsConfig
add_stores files cfg cert_store_paths =
    if not (text_eq cert_store_paths [])
    then (do
      store ←
          walk_all files (record { cert_files = []; key_files = [] })
            (split_commas cert_store_paths)
      add_store files store.key_files cfg store.cert_files)
    else some cfg

abbrev pub empty_config : Bool → TlsConfig
empty_config skip_verify = record {
  root_cas = [];
  insecure_skip_verify = skip_verify;
  uri_domains_to_certs = [];
  default_cert = none;
}

unfoldable pub get_tls_config : Files → Text → Text → Text → Bool → Option TlsConfig
get_tls_config files cert_path key_path cert_store_paths skip_verify = do
  cfg ← add_default files (empty_config skip_verify) cert_path key_path
  add_stores files cfg cert_store_paths

abbrev pub or_default : Option Certificate → Option Certificate → Option Certificate
or_default default_cert none = default_cert
or_default default_cert (some cert) = some cert

-- `GetCertificate`, by the server name of the client's hello; `none` is an error.
unfoldable pub get_certificate : TlsConfig → Text → Option Certificate
get_certificate cfg server_name =
    or_default cfg.default_cert (lookup server_name cfg.uri_domains_to_certs)
