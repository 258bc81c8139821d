-- ===== src/Routing/Radix.antt =====
-- The immutable radix tree of github.com/hashicorp/go-immutable-radix, which the routing memory
-- keeps its objects in: the operations that it uses, with what that package documents of them.
use http_add_on.Prelude.{◌≡◌, Option, none, some, [], ◌∷◌, if◌then◌else◌, refl}
use http_add_on.Prelude.Text.{Text, text_eq}
use http_add_on.Prelude.Dict.{
  Dict, lookup, insert, remove, text_Eq, lookup-insert, lookup-remove, lookup-nil,
}

-- The value at the longest beginning of the text that has one.
unfoldable pub longest : {V : Type 0} → (Text → Option V) → Text → Option V
longest get [] = get []
longest get (c ∷ rest) = elim (longest (λ r. get (c ∷ r)) rest) [ some v ↦ some v | none ↦ get [] ]

pub record Radix (V : Type 0) : Type 1 where
  pub Tree : Type 0
  pub empty : Tree
  pub get : Tree → Text → Option V
  -- the new tree, and the value that the key had
  pub insert : Tree → Text → V → Tree × Option V
  pub delete : Tree → Text → Tree × Option V
  -- the value at the longest key that the text begins with
  pub longest_prefix : Tree → Text → Option V
  pub get-empty : (k : Text) → get empty k ≡ none
  pub insert_old : (t : Tree) (k : Text) (v : V) → (insert t k v).1 ≡ get t k
  pub get-insert :
      (t : Tree) (k j : Text) (v : V)
      → get (insert t k v).0 j ≡ (if text_eq k j then some v else get t j)
  pub delete_old : (t : Tree) (k : Text) → (delete t k).1 ≡ get t k
  pub get-delete :
      (t : Tree) (k j : Text) → get (delete t k).0 j ≡ (if text_eq k j then none else get t j)
  pub longest_prefix-eq : (t : Tree) (k : Text) → longest_prefix t k ≡ longest (get t) k

-- Association lists meet these laws.
abbrev pub dict_radix : (V : Type 0) → Radix V
dict_radix V = record {
  Tree = Dict Text V;
  empty = [];
  get = λ t k. lookup k t;
  insert = λ t k v. (insert k v t, lookup k t);
  delete = λ t k. (remove k t, lookup k t);
  longest_prefix = λ t k. longest (λ j. lookup j t) k;
  get-empty = λ k. lookup-nil k;
  insert_old = λ t k v. refl;
  get-insert = λ t k j v. lookup-insert k j v t;
  delete_old = λ t k. refl;
  get-delete = λ t k j. lookup-remove k j t;
  longest_prefix-eq = λ t k. refl;
}
