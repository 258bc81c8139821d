-- ===== src/Routing/Table/Counted.antt =====
-- The hosts of the queue counter against the objects of the table.
use mathlib.Core.List.{append_assoc}
use http_add_on.Prelude.{
  ℕ, ◌≡◌, refl, sym, ap, ◌∙◌, true, false, [], ◌∷◌, ◌++◌, inl, inr, arith, Bool-cases, Option-cases,
  ◌==◌,
}
use http_add_on.Prelude.Text.{Text, text_eq, text_eq_iff, text_eq_self, codes}
use http_add_on.Prelude.Dict.{Dict, lookup, insert, remove, text_Eq, lookup-insert, lookup-remove}
use http_add_on.Prelude.Returns.{Ensures, Ensures-if, Ensures-bind, Ensures-imp, Ensures_any}
use http_add_on.Api.{HttpScaledObject, NamespacedName, to_string}
use http_add_on.Queue.Buckets.{new_requests_buckets}
use http_add_on.Queue.Memory.{
  Memory, is_some, ensure_key, ensure_buckets, ensure_concurrency, update_buckets, change_buckets,
  differs, remove_key,
}
use http_add_on.Routing.Memory.{name_eq}
use http_add_on.Routing.Memory.Oldest.{In}
use http_add_on.Routing.Table.{name_Eq, values}

-- No slash in the namespace, as in every name of Kubernetes.
abbrev pub Plain : Text → Type 0
Plain [] = Unit
Plain (c ∷ s) = ((c == b'/') ≡ false) × Plain s

slashed-injective :
    (a b m n : Text) → Plain a → Plain b → a ++ (b'/' ∷ m) ≡ b ++ (b'/' ∷ n) → (a ≡ b) × (m ≡ n)
slashed-injective [] [] m n p q e = (refl, cc)
slashed-injective [] (y ∷ b) m n p q e = let same : y ≡ b'/' = cc in absurd (ground (arith, q.0))
slashed-injective (x ∷ a) [] m n p q e = let same : x ≡ b'/' = cc in absurd (ground (arith, p.0))
slashed-injective (x ∷ a) (y ∷ b) m n p q e =
    let heads : x ≡ y = cc in
    let tails : a ++ (b'/' ∷ m) ≡ b ++ (b'/' ∷ n) = cc in
    let (same, names) = slashed-injective a b m n p.1 q.1 tails in (cc, names)

abbrev pub Has : Memory → Text → Type 0
Has r host = is_some (lookup host r.rps_map) ≡ true

-- Names that differ are printed differently.
to_string-differs :
    (k j : NamespacedName)
    → Plain k.namespace
    → Plain j.namespace
    → name_eq k j ≡ false
    → text_eq (to_string k) (to_string j) ≡ false
to_string-differs k j p q h = elim (Bool-cases (text_eq (to_string k) (to_string j))) [
  | inr e ↦ e
  | inl e ↦
      let (spaces, names) = slashed-injective k.namespace j.namespace k.name j.name p q (
        sym (append_assoc k.namespace (codes "/") k.name)
        ∙ (text_eq_iff (to_string k) (to_string j)).0 e
        ∙ append_assoc j.namespace (codes "/") j.name) in
      absurd (ground (arith, h, text_eq_iff k.name j.name, text_eq_iff k.namespace j.namespace))
]

-- The hosts are kept, and this one is there.
pub record Keeps (host : Text) (r m : Memory) : Type 0 where
  pub kept : (k : Text) → Has r k → Has m k
  pub there : Has m host

ensure_buckets-Keeps :
    (r : Memory) (host : Text) (window granularity : ℕ)
    → Ensures (ensure_buckets r host window granularity) (Keeps host r)
unfolding ensure_buckets
ensure_buckets-Keeps r host window granularity =
    Ensures-if (Keeps host r) (is_some (lookup host r.rps_map)) _ _
      (λ e. record { kept = λ k h. h; there = e })
      λ e.
        Ensures-bind (new_requests_buckets window granularity) _ (λ b. Unit {0}) (Keeps host r)
          (Ensures_any _)
          λ b t. record {
            kept = λ k h. rw (lookup-insert host k b r.rps_map) (ground (arith, h));
            there = rw (lookup-insert host host b r.rps_map, text_eq_self host) refl;
          }

same_buckets : (r : Memory) (host : Text) → (ensure_concurrency r host).rps_map ≡ r.rps_map
unfolding ensure_concurrency
same_buckets r host = ground arith

pub ensure_key-Keeps :
    (r : Memory) (host : Text) (window granularity : ℕ)
    → Ensures (ensure_key r host window granularity) (Keeps host r)
unfolding ensure_key
ensure_key-Keeps r host window granularity =
    Ensures-imp (ensure_buckets (ensure_concurrency r host) host window granularity)
      (Keeps host (ensure_concurrency r host)) (Keeps host r)
      (ensure_buckets-Keeps (ensure_concurrency r host) host window granularity)
      λ m x. record {
        kept = λ k h. x.kept k (ap (λ rps. is_some (lookup k rps)) (same_buckets r host) ∙ h);
        there = x.there;
      }

change_buckets-Keeps :
    (r m : Memory) (host : Text) (window granularity : ℕ)
    → Keeps host r m
    → Ensures (change_buckets m host window granularity) (Keeps host r)
unfolding change_buckets
change_buckets-Keeps r m host window granularity x = elim (Option-cases (lookup host m.rps_map)) [
  | inl missing ↦ rw missing x
  | inr (b, found) ↦ rw found (
      Ensures-if (Keeps host r) (differs b window granularity) _ _
        (λ e.
          Ensures-bind (new_requests_buckets window granularity) _ (λ b. Unit {0}) (Keeps host r)
            (Ensures_any _)
            λ fresh t'. record {
              kept = λ k h. rw (lookup-insert host k fresh m.rps_map) (ground (arith, x.kept k h));
              there = rw (lookup-insert host host fresh m.rps_map, text_eq_self host) refl;
            })
        λ e. x)
]

pub update_buckets-Keeps :
    (r : Memory) (host : Text) (window granularity : ℕ)
    → Ensures (update_buckets r host window granularity) (Keeps host r)
unfolding update_buckets
update_buckets-Keeps r host window granularity =
    Ensures-bind (ensure_key r host window granularity) _ (Keeps host r) (Keeps host r)
      (ensure_key-Keeps r host window granularity)
      λ m x. change_buckets-Keeps r m host window granularity x

-- The object is under its own name, which has a plain namespace, and the counter has its host.
pub record IsCounted (r : Memory) (k : NamespacedName) (h : HttpScaledObject) : Type 0 where
  pub own : k ≡ h.key
  pub plain : Plain k.namespace
  pub host : Has r (to_string k)

abbrev pub AllCounted : Memory → Dict NamespacedName HttpScaledObject → Type 0
AllCounted r [] = Unit
AllCounted r ((k, h) ∷ m) = IsCounted r k h × AllCounted r m

pub AllCounted-mono :
    (r s : Memory) (m : Dict NamespacedName HttpScaledObject)
    → ((k : Text) → Has r k → Has s k)
    → AllCounted r m
    → AllCounted s m
AllCounted-mono r s [] f a = tt
AllCounted-mono r s ((k, h) ∷ m) f (c, a) = (
  record { own = c.own; plain = c.plain; host = f (to_string k) c.host },
  AllCounted-mono r s m f a,
)

pub insert-AllCounted :
    (r : Memory) (k : NamespacedName) (h : HttpScaledObject)
    (m : Dict NamespacedName HttpScaledObject)
    → IsCounted r k h
    → AllCounted r m
    → AllCounted r (insert k h m)
unfolding insert
insert-AllCounted r k h [] c a = (c, tt)
insert-AllCounted r k h ((j, w) ∷ m) c (d, a) = elim (Bool-cases (name_eq j k)) [
  | inl e ↦ rw e (c, a)
  | inr e ↦ rw e (d, insert-AllCounted r k h m c a)
]

pub remove-AllCounted :
    (r : Memory) (k : NamespacedName) (m : Dict NamespacedName HttpScaledObject)
    → Plain k.namespace
    → AllCounted r m
    → AllCounted (remove_key r (to_string k)).0 (remove k m)
unfolding remove_key remove
remove-AllCounted r k [] p a = tt
remove-AllCounted r k ((j, w) ∷ m) p (d, a) = elim (Bool-cases (name_eq j k)) [
  | inl e ↦ rw e (remove-AllCounted r k m p a)
  | inr e ↦ rw e (
    record {
      own = d.own;
      plain = d.plain;
      host = rw (lookup-remove (to_string k) (to_string j) r.rps_map) (
          ground (
            arith,
            d.host,
            text_eq_iff (to_string k) (to_string j),
            text_eq_iff (to_string j) (to_string k),
            to_string-differs j k d.plain p e,
          ));
    },
    remove-AllCounted r k m p a,
  )
]

-- The host of every object of the table is there.
pub AllCounted-host :
    (r : Memory) (m : Dict NamespacedName HttpScaledObject) (h : HttpScaledObject)
    → AllCounted r m
    → In h (values m)
    → Has r (to_string h.key)
AllCounted-host r ((k, w) ∷ m) h (c, a) (inl e) = rw (e, ← c.own) c.host
AllCounted-host r ((k, w) ∷ m) h (c, a) (inr i) = AllCounted-host r m h a i
AllCounted-host r [] h a i = absurd i
