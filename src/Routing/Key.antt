-- ===== src/Routing/Key.antt =====
-- pkg/routing/key.go, and what it uses of Go's package `strings`.
pub mod Laws
use http_add_on.Prelude.{
  ℕ, zero, suc, Bool, true, false, Option, none, some, List, [], ◌∷◌, ◌++◌, ◌==◌, ◌&&◌,
  if◌then◌else◌, map,
}
use http_add_on.Prelude.Text.{Text, text_eq, codes}
use http_add_on.Api.{HttpScaledObject}

-- `strings.LastIndex` of a one-byte text; `none` is -1.
unfoldable pub last_index : ℕ → Text → Option ℕ
last_index c [] = none
last_index c (x ∷ xs) = elim (last_index c xs) [
  | some i ↦ some (suc i)
  | none ↦ if x == c then some 0 else none
]

-- `s[:n]`
abbrev pub take : ℕ → Text → Text
take zero xs = []
take (suc n) [] = []
take (suc n) (x ∷ xs) = x ∷ take n xs

-- `strings.Trim` of a one-byte cutset: from the left, then from the right.
unfoldable pub trim_left : ℕ → Text → Text
trim_left c [] = []
trim_left c (x ∷ xs) = let rest = trim_left c xs in if x == c then rest else x ∷ xs

unfoldable pub trim_right : ℕ → Text → Text
trim_right c [] = []
trim_right c (x ∷ xs) =
    let rest = trim_right c xs in if x == c && text_eq rest [] then [] else x ∷ rest

unfoldable pub trim : ℕ → Text → Text
unfolding trim_left trim_right
trim c s = trim_right c (trim_left c s)

-- The host with the text from its last colon on cut off.
unfoldable pub cut_port : Text → Text
unfolding last_index
cut_port host = elim (last_index b':' host) [ none ↦ host | some i ↦ take i host ]

unfoldable pub path_part : Text → Text
unfolding trim
path_part path =
    let trimmed = trim b'/' path in if text_eq trimmed [] then trimmed else trimmed ++ codes "/"

-- `NewKey`.
unfoldable pub new_key : Text → Text → Text
unfolding cut_port path_part
new_key host path = codes "//" ++ (cut_port host ++ (codes "/" ++ path_part path))

pub record Url : Type 0 where
  pub host : Text
  pub path : Text

-- A nil URL or request gives a nil key, which is the empty sequence of bytes.
unfoldable pub new_key_from_url : Option Url → Text
new_key_from_url none = []
new_key_from_url (some url) = new_key url.host url.path

pub record Request : Type 0 where
  pub url : Option Url
  pub host : Text

-- The `Host` of the request stands before that of its URL.
abbrev pub key_url : Request → Url → Url
key_url req url = if text_eq req.host [] then url else record url { host = req.host }

unfoldable pub new_key_from_request : Option Request → Text
new_key_from_request none = []
new_key_from_request (some req) = elim req.url [
  | none ↦ []
  | some url ↦ new_key_from_url (some (key_url req url))
]

-- A nil list of hosts or path prefixes stands for one empty text.
abbrev pub or_empty_text : Option (List Text) → List Text
or_empty_text none = [] ∷ []
or_empty_text (some l) = l

abbrev pub keys_of_host : Text → List Text → List Text
keys_of_host host [] = []
keys_of_host host (p ∷ ps) = new_key host p ∷ keys_of_host host ps

abbrev pub keys_of : List Text → List Text → List Text
keys_of [] prefixes = []
keys_of (host ∷ hosts) prefixes = keys_of_host host prefixes ++ keys_of hosts prefixes

unfoldable pub new_keys_from_httpso : Option HttpScaledObject → List Text
new_keys_from_httpso none = []
new_keys_from_httpso (some httpso) =
    keys_of (or_empty_text httpso.spec.hosts) (or_empty_text httpso.spec.path_prefixes)
