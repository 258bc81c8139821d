-- ===== src/Routing/Memory.antt =====
-- pkg/routing/tablememory.go, over any radix tree `rt`. `DeepCopy` gives an equal object; the trees
-- hold no nil pointer.
pub mod Oldest
pub mod Route
pub mod Names
use http_add_on.Prelude.{
  ℕ, Bool, not, ◌&&◌, ◌||◌, Option, none, some, List, [], ◌∷◌, ltb, if◌then◌else◌,
}
use http_add_on.Prelude.Text.{Text, text_eq}
use http_add_on.Api.{HttpScaledObject, NamespacedName, to_string}
use http_add_on.Routing.Key.{new_keys_from_httpso}
use http_add_on.Routing.Radix.{Radix}

abbrev pub name_eq : NamespacedName → NamespacedName → Bool
name_eq a b = text_eq a.name b.name && text_eq a.namespace b.namespace

-- `GetCreationTimestamp().After(…)`
abbrev pub created_after : HttpScaledObject → HttpScaledObject → Bool
created_after a b = ltb b.creation_timestamp a.creation_timestamp

-- An older object that was there is kept.
abbrev pub is_younger : HttpScaledObject → Option HttpScaledObject → Bool
is_younger httpso none = Bool.false
is_younger httpso (some old) = created_after httpso old

-- The object that was there goes by the name.
abbrev pub has_name : NamespacedName → Option HttpScaledObject → Bool
has_name n none = Bool.false
has_name n (some old) = name_eq old.key n

module _ (rt : Radix HttpScaledObject) where
  open rt use {Tree, empty, get, insert, delete, longest_prefix}

  pub record TableMemory : Type 0 where
    pub index : Tree
    pub store : Tree

  unfoldable pub new_table_memory : TableMemory
  new_table_memory = record { index = empty; store = empty }

  -- The loop of `Remember` over the keys.
  unfoldable pub store_keys : List Text → HttpScaledObject → Tree → Tree
  store_keys [] httpso store = store
  store_keys (key ∷ keys) httpso store =
      let (new_store, old) = insert store key httpso in
      store_keys keys httpso (if is_younger httpso old then store else new_store)

  unfoldable pub remember : TableMemory → Option HttpScaledObject → TableMemory
  remember tm none = tm
  remember tm (some httpso) =
      let (index, old) = insert tm.index (to_string httpso.key) httpso in
      record {
        index = index;
        store = store_keys (new_keys_from_httpso (some httpso)) httpso tm.store;
      }

  unfoldable pub recall : TableMemory → Option NamespacedName → Option HttpScaledObject
  recall tm none = none
  recall tm (some n) = get tm.index (to_string n)

  -- The loop of `Forget` over the keys.
  unfoldable pub delete_keys : List Text → NamespacedName → Tree → Tree
  delete_keys [] n store = store
  delete_keys (key ∷ keys) n store =
      let (new_store, old) = delete store key in
      delete_keys keys n (if has_name n old then new_store else store)

  -- The part of `Forget` behind the look into the index.
  abbrev pub forget_found :
      TableMemory → NamespacedName → Tree → Option HttpScaledObject → TableMemory
  forget_found tm n index none = tm
  forget_found tm n index (some httpso) = record {
    index = index;
    store = delete_keys (new_keys_from_httpso (some httpso)) n tm.store;
  }

  -- A nil name gives a nil memory, `none`.
  unfoldable pub forget : TableMemory → Option NamespacedName → Option TableMemory
  forget tm none = none
  forget tm (some n) =
      let (index, httpso) = delete tm.index (to_string n) in some (forget_found tm n index httpso)

  unfoldable pub route : TableMemory → Text → Option HttpScaledObject
  route tm key = longest_prefix tm.store key

  -- The loop of `newMemoryFromHTTPSOs` of table.go, from a memory.
  unfoldable pub remember_all : TableMemory → List HttpScaledObject → TableMemory
  remember_all tm [] = tm
  remember_all tm (h ∷ hs) = remember_all (remember tm (some h)) hs
