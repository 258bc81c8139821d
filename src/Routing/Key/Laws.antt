-- ===== src/Routing/Key/Laws.antt =====
-- What a routing key tells apart.
use http_add_on.Prelude.{
  ℕ, ◌≡◌, ◌≢◌, refl, ap, ◌∙◌, Bool, true, false, none, some, [], ◌∷◌, ◌++◌, ◌==◌, ◌&&◌, arith,
  length, Bool-cases, inl, inr,
}
use http_add_on.Prelude.Text.{Text, codes}
use http_add_on.Routing.Key.{last_index, take, trim_right, trim, cut_port, path_part, new_key}

-- The byte does not stand in the text.
abbrev pub Avoids : ℕ → Text → Type 0
Avoids c [] = Unit
Avoids c (x ∷ xs) = (x ≢ c) × Avoids c xs

-- One text is the beginning of the other.
abbrev pub is_prefix : Text → Text → Bool
is_prefix [] t = true
is_prefix (x ∷ s) [] = false
is_prefix (x ∷ s) (y ∷ t) = x == y && is_prefix s t

last_index-Avoids : (c : ℕ) (s : Text) → Avoids c s → last_index c s ≡ none
unfolding last_index
last_index-Avoids c [] h = refl
last_index-Avoids c (x ∷ s) h = rw (last_index-Avoids c s h.1) (ground (arith, h.0))

last_index-append :
    (c : ℕ) (s t : Text) → Avoids c t → last_index c (s ++ (c ∷ t)) ≡ some (length s)
unfolding last_index
last_index-append c [] t h = rw (last_index-Avoids c t h) (ground arith)
last_index-append c (x ∷ s) t h = rw (last_index-append c s t h)

take-length-append : (s t : Text) → take (length s) (s ++ t) ≡ s
take-length-append [] t = refl
take-length-append (x ∷ s) t = ap (◌∷◌ x) (take-length-append s t)

cut_port-port :
    (host port : Text) → Avoids b':' port → cut_port (host ++ (codes ":" ++ port)) ≡ host
unfolding cut_port
cut_port-port host port h =
    rw (last_index-append b':' host port h, cut_port) (take-length-append host (codes ":" ++ port))

cut_port-Avoids : (host : Text) → Avoids b':' host → cut_port host ≡ host
unfolding cut_port
cut_port-Avoids host h = rw (last_index-Avoids b':' host h, cut_port)

trim_right-slash : (c : ℕ) (s : Text) → trim_right c (s ++ (c ∷ [])) ≡ trim_right c s
unfolding trim_right
trim_right-slash c [] = ground arith
trim_right-slash c (x ∷ s) = rw (trim_right-slash c s)

trim-slash_right : (c : ℕ) (s : Text) → trim c (s ++ (c ∷ [])) ≡ trim c s
unfolding trim
trim-slash_right c [] = ground arith
trim-slash_right c (x ∷ s) = elim (Bool-cases (x == c)) [
  | inl same ↦ rw same (trim-slash_right c s)
  | inr other ↦ rw other (trim_right-slash c (x ∷ s))
]

trim-slash_left : (c : ℕ) (s : Text) → trim c (c ∷ s) ≡ trim c s
unfolding trim
trim-slash_left c s = let same : (c == c) ≡ true = ground arith in rw same

path_part-slashes : (p : Text) → path_part (codes "/" ++ (p ++ codes "/")) ≡ path_part p
unfolding path_part
path_part-slashes p = rw (trim-slash_left b'/' (p ++ codes "/") ∙ trim-slash_right b'/' p)

-- A key does not depend on a port after the host, nor on a slash before or behind the path, for a
-- host with no colon of its own.
pub new_key-canonical :
    (host port path : Text)
    → Avoids b':' host
    → Avoids b':' port
    → new_key (host ++ (codes ":" ++ port)) (codes "/" ++ (path ++ codes "/")) ≡ new_key host path
unfolding new_key
new_key-canonical host port path hh hp =
    rw (cut_port-port host port hp, cut_port-Avoids host hh, path_part-slashes path)

-- Up to a first byte that neither text has before, the texts agree.
prefix_parts :
    (c : ℕ) (s t u v : Text)
    → Avoids c s
    → Avoids c t
    → is_prefix (s ++ (c ∷ u)) (t ++ (c ∷ v)) ≡ true
    → (s ≡ t) × (is_prefix u v ≡ true)
prefix_parts c [] [] u v hs ht p = ground arith
prefix_parts c [] (y ∷ t) u v hs ht p = absurd (ht.0 (ground arith))
prefix_parts c (x ∷ s) [] u v hs ht p = absurd (hs.0 (ground arith))
prefix_parts c (x ∷ s) (y ∷ t) u v hs ht p = ground (arith, prefix_parts c s t u v hs.1 ht.1)

-- A key is the beginning of another only if both have the same host, with its port cut off, and
-- the part for the path is the beginning of the other's. Hosts have no slash.
pub new_key-prefix :
    (h p h' p' : Text)
    → Avoids b'/' (cut_port h)
    → Avoids b'/' (cut_port h')
    → is_prefix (new_key h p) (new_key h' p') ≡ true
    → (cut_port h ≡ cut_port h') × (is_prefix (path_part p) (path_part p') ≡ true)
unfolding new_key
new_key-prefix h p h' p' a a' e =
    prefix_parts b'/' (cut_port h) (cut_port h') (path_part p) (path_part p') a a' (ground arith)
