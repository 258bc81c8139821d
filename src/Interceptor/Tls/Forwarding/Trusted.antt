-- ===== src/Interceptor/Tls/Forwarding/Trusted.antt =====
-- Which certificates a proxy server trusts when it connects to a workload.
use http_add_on.Prelude.{
  ◌≡◌, Bool, not, ◌&&◌, Option, some, List, [], ◌∷◌, ◌++◌, map, if◌then◌else◌, ◌>>=◌,
}
use http_add_on.Prelude.Text.{Text, text_eq}
use http_add_on.Prelude.Dict.{Dict, text_Eq}
use http_add_on.Interceptor.Tls.{Files, TlsConfig, walk_all, split_commas}
use http_add_on.Interceptor.Tls.Served.{empty_store}
use http_add_on.Interceptor.Tls.Forwarding.{ForwardingTlsCfg, forwarding_tls_cfg}

-- The texts of these files, if all can be read.
abbrev pub read_all : Files → List Text → Option (List Text)
read_all files [] = some []
read_all files (path ∷ paths) = do
  raw ← files.read_file path
  rest ← read_all files paths
  some (raw ∷ rest)

-- The certificate file of the two paths, if both are set.
abbrev pub default_paths : Text → Text → List Text
default_paths cert_path key_path =
    if not (text_eq cert_path []) && not (text_eq key_path []) then cert_path ∷ [] else []

abbrev paths_of : Dict Text Text → List Text
paths_of pairs = map (λ (pair : Text × Text). pair.1) pairs

-- The certificate files in the directories, if any are set.
abbrev pub stored_paths : Files → Text → Option (List Text)
stored_paths files cert_store_paths =
    if not (text_eq cert_store_paths [])
    then (do
      store ← walk_all files empty_store (split_commas cert_store_paths)
      some (paths_of store.cert_files))
    else some []

-- The configuration was extended with the texts of these files.
abbrev Reads : Files → TlsConfig → List Text → TlsConfig → Type 0
Reads files cfg paths r =
    (pems : List Text) × (read_all files paths ≡ some pems)
    × (r.root_cas ≡ cfg.root_cas ++ pems)
    × (r.insecure_skip_verify ≡ cfg.insecure_skip_verify)

-- Only these are trusted besides the system's: the certificate of the two paths and those in the
-- directories, as their files have them.
abbrev pub TrustsOnly : Files → Text → Text → Text → ForwardingTlsCfg → Type 0
TrustsOnly files cert_path key_path cert_store_paths cfg =
    (stored : List Text) × (stored_paths files cert_store_paths ≡ some stored)
    × (pems : List Text) × (read_all files (default_paths cert_path key_path ++ stored) ≡ some pems)
    × (cfg.root_cas ≡ some pems)

abbrev Configured : Files → Text → Text → Text → Bool → TlsConfig → Type 0
Configured files c k dirs skip r =
    TrustsOnly files c k dirs (forwarding_tls_cfg (some r)) × (r.insecure_skip_verify ≡ skip)
