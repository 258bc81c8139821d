-- ===== src/Routing/Memory/Names.antt =====
-- `Recall` and `Forget` by name.
use http_add_on.Prelude.{
  ◌≡◌, refl, ap, ◌∙◌, Bool, ◌&&◌, ◌||◌, Option, none, some, List, [], ◌∷◌, if◌then◌else◌, arith,
  Bool-cases, inl, inr,
}
use http_add_on.Prelude.Text.{Text, text_eq, text_eq_iff, text_eq_self}
use http_add_on.Api.{HttpScaledObject, NamespacedName, to_string}
use http_add_on.Routing.Key.{new_keys_from_httpso}
use http_add_on.Routing.Radix.{Radix}
use http_add_on.Routing.Memory.{TableMemory, remember, recall, delete_keys, forget, has_name}
use http_add_on.Routing.Memory.Oldest.{has_key, owns}

-- What a key holds after its object is dropped, if that goes by the name.
abbrev pub drop_named : Bool → NamespacedName → Option HttpScaledObject → Option HttpScaledObject
drop_named owned n old = if owned && has_name n old then none else old

module _ (rt : Radix HttpScaledObject) where
  open rt use {Tree, get, insert, delete}

  -- After `Remember` the object is found by its name; by any name that is spelled otherwise what
  -- was found before is found.
  pub recall-remember :
      (tm : TableMemory rt) (h : HttpScaledObject) (n : NamespacedName)
      → recall rt (remember rt tm (some h)) (some n)
        ≡ (if text_eq (to_string h.key) (to_string n) then some h else recall rt tm (some n))
  unfolding recall remember
  recall-remember tm h n = rt.get-insert tm.index (to_string h.key) (to_string n) h

  get-delete_key :
      (x k : Text) (n : NamespacedName) (t : Tree)
      → get (if has_name n (delete t x).1 then (delete t x).0 else t) k
        ≡ drop_named (text_eq x k) n (get t k)
  get-delete_key x k n t = elim (Bool-cases (text_eq x k)) [
    | inl p ↦
        let e : x ≡ k = (text_eq_iff x k).0 p in
        rw (rt.delete_old t x, e)
          (elim (Bool-cases (has_name n (get t k))) [
            | inl y ↦ rw (y, rt.get-delete t k k, text_eq_self k)
            | inr y ↦ rw (y, text_eq_self k)
          ])
    | inr p ↦
        rw (rt.delete_old t x, p)
          (elim (Bool-cases (has_name n (get t x))) [
            | inl y ↦ rw (y, rt.get-delete t x k, p)
            | inr y ↦ rw y
          ])
  ]

  drop_twice :
      (b c : Bool) (n : NamespacedName) (o : Option HttpScaledObject)
      → drop_named c n (drop_named b n o) ≡ drop_named (b || c) n o
  drop_twice b c n o = ground arith

  get-delete_keys :
      (keys : List Text) (k : Text) (n : NamespacedName) (t : Tree)
      → get (delete_keys rt keys n t) k ≡ drop_named (has_key k keys) n (get t k)
  unfolding delete_keys
  get-delete_keys [] k n t = refl
  get-delete_keys (x ∷ keys) k n t =
      get-delete_keys keys k n (if has_name n (delete t x).1 then (delete t x).0 else t)
      ∙ ap (drop_named (has_key k keys) n) (get-delete_key x k n t)
      ∙ drop_twice (text_eq x k) (has_key k keys) n (get t k)

  -- `Forget` of a name that the memory has takes the object from the index, and from each of its
  -- keys that holds an object of that name; all other keys hold what they held.
  forget_known :
      (tm : TableMemory rt) (n : NamespacedName) (h : HttpScaledObject)
      → recall rt tm (some n) ≡ some h
      → (tm' : TableMemory rt) × (forget rt tm (some n) ≡ some tm')
        × (recall rt tm' (some n) ≡ none)
        × ((k : Text) → get tm'.store k ≡ drop_named (owns h k) n (get tm.store k))
  unfolding forget recall
  forget_known tm n h e =
      let found = rt.delete_old tm.index (to_string n) ∙ e in
      (
        record {
          index = (delete tm.index (to_string n)).0;
          store = delete_keys rt (new_keys_from_httpso (some h)) n tm.store;
        },
        rw found,
        rt.get-delete tm.index (to_string n) (to_string n) ∙ rw (text_eq_self (to_string n)),
        λ k. get-delete_keys (new_keys_from_httpso (some h)) k n tm.store,
      )

  -- `Forget` of another name changes nothing.
  pub forget_unknown :
      (tm : TableMemory rt) (n : NamespacedName)
      → recall rt tm (some n) ≡ none
      → forget rt tm (some n) ≡ some tm
  unfolding forget recall
  forget_unknown tm n e = rw (rt.delete_old tm.index (to_string n) ∙ e)
