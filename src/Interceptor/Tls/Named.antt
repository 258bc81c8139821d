-- ===== src/Interceptor/Tls/Named.antt =====
-- The names under which certificates are added.
use mathlib.Core.Option.{some-injective}
use http_add_on.Prelude.{
  ◌≡◌, refl, sym, ◌∙◌, Bool, true, false, Option, none, some, List, [], ◌∷◌, ◌++◌, if◌then◌else◌,
  inl, inr, arith, Option-cases,
}
use http_add_on.Prelude.Text.{listed, listed-append, Text}
use http_add_on.Prelude.Dict.{lookup, insert, text_Eq, lookup-insert}
use http_add_on.Queue.Memory.{is_some}
use http_add_on.Prelude.Returns.{Ensures, Ensures-eq, Ensures-bind, Ensures_self}
use http_add_on.Interceptor.Tls.{
  Leaf, Certificate, Files, Certs, add_names, parse_first, ensure_leaf, load_cert, add_cert,
  TlsConfig, add_pair,
}

abbrev pub names_of : Option Leaf → List Text
names_of none = []
names_of (some leaf) = leaf.dns_names ++ (leaf.ip_addresses ++ leaf.uris)

lookup-add_names :
    (n : Text) (names : List Text) (cert : Certificate) (m : Certs)
    → lookup n (add_names names cert m) ≡ (if listed n names then some cert else lookup n m)
unfolding add_names listed
lookup-add_names n [] cert m = refl
lookup-add_names n (a ∷ names) cert m =
    ground (arith, lookup-add_names n names cert (insert a cert m), lookup-insert a n cert m)

pub anything : {A : Type 0} (m : Option A) → Ensures m (λ a. Unit {0})
anything none = tt
anything (some a) = tt

abbrev Parsed : Certificate × Leaf → Type 0
Parsed r = r.0.leaf ≡ some r.1

parse_first-Parsed :
    (files : Files) (cert : Certificate) (chain : List Text)
    → Ensures (parse_first files cert chain) Parsed
parse_first-Parsed files cert [] = tt
parse_first-Parsed files cert (raw ∷ rest) = elim (Option-cases (files.parse_certificate raw)) [
  | inl e ↦ rw e tt
  | inr (leaf, e) ↦ rw e refl
]

ensure_leaf-Parsed :
    (files : Files) (cert : Certificate) (o : Option Leaf)
    → cert.leaf ≡ o
    → Ensures (ensure_leaf files cert o) Parsed
ensure_leaf-Parsed files cert none e = parse_first-Parsed files cert cert.chain
ensure_leaf-Parsed files cert (some leaf) e = e

load_cert-Parsed : (files : Files) (c k : Text) → Ensures (load_cert files c k) Parsed
unfolding load_cert
load_cert-Parsed files c k =
    Ensures-bind (files.load_x509_key_pair c k) _ (λ r. Unit {0}) Parsed (anything _)
      λ cert t. ensure_leaf-Parsed files cert cert.leaf refl

lookup-add_all :
    (n : Text) (dns ips uris : List Text) (cert : Certificate) (m : Certs)
    → lookup n (add_names uris cert (add_names ips cert (add_names dns cert m)))
      ≡ (if listed n (dns ++ (ips ++ uris)) then some cert else lookup n m)
lookup-add_all n dns ips uris cert m = ground (
  arith,
  lookup-add_names n uris cert (add_names ips cert (add_names dns cert m)),
  lookup-add_names n ips cert (add_names dns cert m),
  lookup-add_names n dns cert m,
  listed-append n dns (ips ++ uris),
  listed-append n ips uris,
)

-- The certificate is the loaded one; a name of it gives it, and any other what it gave before.
record Added (files : Files) (c k : Text) (m : Certs) (r : Certificate × Certs) : Type 0 where
  pub loaded : (leaf : Leaf) × (load_cert files c k ≡ some (r.0, leaf))
  each : (n : Text) → lookup n r.1 ≡ (if listed n (names_of r.0.leaf) then some r.0 else lookup n m)

add_cert-Added :
    (files : Files) (m : Certs) (c k : Text) → Ensures (add_cert files m c k) (Added files c k m)
unfolding add_cert
add_cert-Added files m c k =
    Ensures-bind (load_cert files c k) _ (λ r. load_cert files c k ≡ some r) (Added files c k m)
      (Ensures_self (load_cert files c k))
      λ (cert, leaf) e.
        let parsed =
          Ensures-eq (load_cert files c k) Parsed (cert, leaf) (load_cert-Parsed files c k) e in
        record {
          loaded = (leaf, e);
          each = λ n. rw parsed (lookup-add_all n leaf.dns_names leaf.ip_addresses leaf.uris _ m);
        }

-- Every certificate in the map is there under names of its own.
pub record AllNamed (m : Certs) : Type 0 where
  pub own : (n : Text) (c : Certificate) → lookup n m ≡ some c → listed n (names_of c.leaf) ≡ true

-- The map keeps its names, and has those of the certificate.
pub record Extended (files : Files) (c k : Text) (cfg : TlsConfig) (r : Certificate × TlsConfig)
    : Type 0 where
  pub loaded : (leaf : Leaf) × (load_cert files c k ≡ some (r.0, leaf))
  pub all_named : AllNamed r.1.uri_domains_to_certs
  pub keeps :
      (n : Text)
      → is_some (lookup n cfg.uri_domains_to_certs) ≡ true
      → is_some (lookup n r.1.uri_domains_to_certs) ≡ true
  pub has :
      (n : Text)
      → listed n (names_of r.0.leaf) ≡ true
      → is_some (lookup n r.1.uri_domains_to_certs) ≡ true
  pub same_default : r.1.default_cert ≡ cfg.default_cert

pick_own :
    (b : Bool) (cert c : Certificate) (o : Option Certificate) (n : Text)
    → (if b then some cert else o) ≡ some c
    → (b ≡ true → listed n (names_of cert.leaf) ≡ true)
    → (o ≡ some c → listed n (names_of c.leaf) ≡ true)
    → listed n (names_of c.leaf) ≡ true
pick_own true cert c o n e h k = rw (some-injective _ _ (sym e)) (h refl)
pick_own false cert c o n e h k = k e

pub add_pair-Extended :
    (files : Files) (cfg : TlsConfig) (c k : Text)
    → AllNamed cfg.uri_domains_to_certs
    → Ensures (add_pair files cfg c k) (Extended files c k cfg)
add_pair-Extended files cfg c k h =
    Ensures-bind (add_cert files cfg.uri_domains_to_certs c k) _
      (Added files c k cfg.uri_domains_to_certs) (Extended files c k cfg)
      (add_cert-Added files cfg.uri_domains_to_certs c k)
      λ (cert, certs) a.
        Ensures-bind (files.read_file c) _ (λ r. Unit {0}) (Extended files c k cfg) (anything _)
          λ raw t. record {
            loaded = a.loaded;
            all_named = record {
              own = λ n d e.
                  pick_own (listed n (names_of cert.leaf)) cert d
                    (lookup n cfg.uri_domains_to_certs) n (sym (a.each n) ∙ e) (λ x. x) (h.own n d);
            };
            keeps = λ n there. rw (a.each n) (ground (arith, there));
            has = λ n there. rw (a.each n, there) refl;
            same_default = refl;
          }
