-- ===== src/Routing/Memory/Route.antt =====
-- `Route` finds the object of the longest key that the request's key begins with.
use http_add_on.Prelude.{
  ℕ, suc, ◌<◌, ◌≡◌, refl, ap, ◌∙◌, inl, inr, true, false, Option, none, some, List, [], ◌∷◌, arith,
  Option-cases, length,
}
use http_add_on.Prelude.Text.{Text}
use http_add_on.Api.{HttpScaledObject}
use http_add_on.Routing.Key.Laws.{is_prefix}
use http_add_on.Routing.Radix.{Radix, longest}
use http_add_on.Routing.Memory.{TableMemory, new_table_memory, remember_all, route}
use http_add_on.Routing.Memory.Oldest.{owns, In, IsOldest, remember_all-IsOldest}

longest-none :
    {V : Type 0} (get : Text → Option V) (k q : Text)
    → longest get k ≡ none
    → is_prefix q k ≡ true
    → get q ≡ none
unfolding longest
longest-none get [] [] e p = e
longest-none get [] (y ∷ q) e p = cc
longest-none get (c ∷ k) [] e p = ground arith
longest-none get (c ∷ k) (y ∷ q) e p =
    let same : y ≡ c = ground arith in
    rw same (longest-none (λ r. get (c ∷ r)) k q (ground arith) (ground arith))

-- `v` stands at a beginning of the key, and nothing at a longer one.
pub record IsLongest {V : Type 0} (get : Text → Option V) (k : Text) (v : V) : Type 0 where
  pub at : Text
  pub begins : is_prefix at k ≡ true
  pub found : get at ≡ some v
  pub longer : (q : Text) → is_prefix q k ≡ true → length at < length q → get q ≡ none

no_longer : (q : Text) {P : Type 0} → is_prefix q [] ≡ true → 0 < length q → P
no_longer [] p lt = elim lt [ ]
no_longer (y ∷ q) p lt = absurd (cc)

longer_none :
    {V : Type 0} (get : Text → Option V) (c : ℕ) (k q : Text)
    → longest (λ r. get (c ∷ r)) k ≡ none
    → is_prefix q (c ∷ k) ≡ true
    → 0 < length q
    → get q ≡ none
longer_none get c k [] e p lt = elim lt [ ]
longer_none get c k (y ∷ q) e p lt =
    let same : y ≡ c = ground arith in
    rw same (longest-none (λ r. get (c ∷ r)) k q e (ground arith))

longer_some :
    {V : Type 0} (get : Text → Option V) (c : ℕ) (k at q : Text)
    → ((r : Text) → is_prefix r k ≡ true → length at < length r → get (c ∷ r) ≡ none)
    → is_prefix q (c ∷ k) ≡ true
    → suc (length at) < length q
    → get q ≡ none
longer_some get c k at [] h p lt = elim lt [ ]
longer_some get c k at (y ∷ q) h p lt =
    let same : y ≡ c = ground arith in rw same (h q (ground arith) (omega arith))

longest-some :
    {V : Type 0} (get : Text → Option V) (k : Text) (v : V)
    → longest get k ≡ some v
    → IsLongest get k v
unfolding longest
longest-some get [] v e = record {
  at = [];
  begins = refl;
  found = e;
  longer = λ q p lt. no_longer q p lt;
}
longest-some get (c ∷ k) v e = elim (Option-cases (longest (λ r. get (c ∷ r)) k)) [
  | inl nothing ↦ record {
    at = [];
    begins = refl;
    found = ground arith;
    longer = λ q p lt. longer_none get c k q nothing p lt;
  }
  | inr (w, deeper) ↦
      let same : w ≡ v = ground arith in
      let i = longest-some (λ r. get (c ∷ r)) k w deeper in
      record {
        at = c ∷ i.at;
        begins = ground (arith, i.begins);
        found = i.found ∙ ap some same;
        longer = λ q p lt. longer_some get c k i.at q i.longer p lt;
      }
]

-- The object that a request is routed to: the oldest of those that own one of the beginnings of its
-- key, the longest beginning that any object owns.
abbrev pub IsRouted : List HttpScaledObject → Text → Option HttpScaledObject → Type 0
IsRouted l key none =
    (q : Text) (h : HttpScaledObject) → is_prefix q key ≡ true → In h l → owns h q ≡ false
IsRouted l key (some a) =
    (q : Text) × (is_prefix q key ≡ true)
    × IsOldest q (λ h. In h l) (some a)
    × ((p : Text) (h : HttpScaledObject)
        → is_prefix p key ≡ true
        → length q < length p
        → In h l
        → owns h p ≡ false)

module _ (rt : Radix HttpScaledObject) (l : List HttpScaledObject) (key : Text) where
  abbrev built : TableMemory rt
  built = remember_all rt (new_table_memory rt) l

  none-owns :
      (q : Text) (h : HttpScaledObject) → rt.get built.store q ≡ none → In h l → owns h q ≡ false
  none-owns q h e m = (rw e at (remember_all-IsOldest rt l q)) h m

  routed : (o : Option HttpScaledObject) → longest (rt.get built.store) key ≡ o → IsRouted l key o
  routed none e = λ q h p m. none-owns q h (longest-none (rt.get built.store) key q e p) m
  routed (some a) e =
      let i = longest-some (rt.get built.store) key a e in
      (
        i.at,
        i.begins,
        rw i.found at (remember_all-IsOldest rt l i.at),
        λ p h b lt m. none-owns p h (i.longer p b lt) m,
      )

  -- A memory that is built from a list of objects routes a key to the oldest owner of the longest
  -- beginning of the key that any object of the list owns, and to none only if no object owns a
  -- beginning of it.
  pub route-IsRouted : IsRouted l key (route rt built key)
  unfolding route
  route-IsRouted =
      rw (rt.longest_prefix-eq built.store key) (routed (longest (rt.get built.store) key) refl)
