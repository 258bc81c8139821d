-- ===== src/Interceptor/Tls/Served.antt =====
-- Which certificate a client is served.
use http_add_on.Prelude.{◌≡◌, true, some, [], ◌∷◌, ◌⊎◌}
use http_add_on.Prelude.Text.{listed, Text, text_eq}
use http_add_on.Prelude.Dict.{Dict, lookup, text_Eq}
use http_add_on.Queue.Memory.{is_some}
use http_add_on.Prelude.Returns.{Ensures}
use http_add_on.Interceptor.Tls.{
  Leaf, Certificate, Files, load_cert, TlsConfig, get_certificate, Store, walk_all, split_commas,
}
use http_add_on.Interceptor.Tls.Named.{names_of, AllNamed}

-- The certificate of the path has its key in the store, was loaded, and each of its names has a
-- certificate in the map.
abbrev pub Served : Files → Dict Text Text → TlsConfig → Text × Text → Type 0
Served files key_files cfg (cert_id, cert_path) =
    (key_path : Text) × (lookup cert_id key_files ≡ some key_path)
    × (cert : Certificate) × ((leaf : Leaf) × (load_cert files cert_path key_path
          ≡ some (cert, leaf)))
    × ((n : Text)
        → listed n (names_of cert.leaf) ≡ true
        → is_some (lookup n cfg.uri_domains_to_certs) ≡ true)

abbrev pub AllServed : Files → Dict Text Text → TlsConfig → Dict Text Text → Type 0
AllServed files key_files cfg [] = Unit
AllServed files key_files cfg (pair ∷ rest) =
    Served files key_files cfg pair × AllServed files key_files cfg rest

record Stored (files : Files) (key_files : Dict Text Text) (cfg : TlsConfig)
    (pairs : Dict Text Text) (r : TlsConfig) : Type 0 where
  all_named : AllNamed r.uri_domains_to_certs
  keeps :
      (n : Text)
      → is_some (lookup n cfg.uri_domains_to_certs) ≡ true
      → is_some (lookup n r.uri_domains_to_certs) ≡ true
  served : AllServed files key_files r pairs
  same_default : r.default_cert ≡ cfg.default_cert

-- What the configuration serves: a certificate under a name of its own, or else the default.
abbrev pub OwnOrDefault : TlsConfig → Type 0
OwnOrDefault cfg =
    (n : Text)
    → Ensures (get_certificate cfg n)
        (λ c. (listed n (names_of c.leaf) ≡ true) ⊎ (cfg.default_cert ≡ some c))

abbrev pub empty_store : Store
empty_store = record { cert_files = []; key_files = [] }

-- What all that is read from the directories serves.
abbrev pub StoresServed : Files → Text → TlsConfig → Type 0
StoresServed files cert_store_paths cfg =
    (text_eq cert_store_paths [] ≡ true)
    ⊎ ((store : Store) × (walk_all files empty_store (split_commas cert_store_paths) ≡ some store)
        × AllServed files store.key_files cfg store.cert_files)

record Configured (files : Files) (cert_store_paths : Text) (r : TlsConfig) : Type 0 where
  all_named : AllNamed r.uri_domains_to_certs
  stores : StoresServed files cert_store_paths r
