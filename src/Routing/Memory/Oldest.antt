-- ===== src/Routing/Memory/Oldest.antt =====
-- For every key the oldest object has precedence.
use http_add_on.Prelude.{
  ◌≤◌, ◌≡◌, refl, ap, ◌∙◌, ◌⊎◌, inl, inr, Bool, true, false, ◌||◌, Option, none, some, List, [],
  ◌∷◌, ltb, if◌then◌else◌, arith, Bool-cases,
}
use native.Mathlib.Decide.{dec_lt}
use http_add_on.Prelude.Text.{Text, text_eq, text_eq_iff, text_eq_self}
use http_add_on.Api.{HttpScaledObject}
use http_add_on.Routing.Key.{new_keys_from_httpso}
use http_add_on.Routing.Radix.{Radix}
use http_add_on.Routing.Memory.{
  TableMemory, new_table_memory, store_keys, remember, remember_all, is_younger,
}

abbrev pub has_key : Text → List Text → Bool
has_key k [] = false
has_key k (x ∷ xs) = text_eq x k || has_key k xs

-- What a key holds once `httpso` is remembered under some keys.
abbrev pub put : Bool → HttpScaledObject → Option HttpScaledObject → Option HttpScaledObject
put false httpso old = old
put true httpso old = if is_younger httpso old then old else some httpso

abbrev pub owns : HttpScaledObject → Text → Bool
owns h k = has_key k (new_keys_from_httpso (some h))

-- Of the objects `S`, the one that a key holds: one that owns the key and was created no later than
-- any other that does, and none only if none owns it.
abbrev pub IsOldest : Text → (HttpScaledObject → Type 0) → Option HttpScaledObject → Type 0
IsOldest k S none = (h : HttpScaledObject) → S h → owns h k ≡ false
IsOldest k S (some a) =
    S a
    × (owns a k ≡ true)
    × ((h : HttpScaledObject) → S h → owns h k ≡ true → a.creation_timestamp ≤ h.creation_timestamp)

abbrev pub In : HttpScaledObject → List HttpScaledObject → Type 0
In h [] = ⊥
In h (x ∷ xs) = (h ≡ x) ⊎ In h xs

abbrev With : HttpScaledObject → (HttpScaledObject → Type 0) → HttpScaledObject → Type 0
With new S h = (h ≡ new) ⊎ S h

IsOldest-mono :
    (k : Text) (S T : HttpScaledObject → Type 0) (o : Option HttpScaledObject)
    → ((h : HttpScaledObject) → S h → T h)
    → ((h : HttpScaledObject) → T h → S h)
    → IsOldest k S o
    → IsOldest k T o
IsOldest-mono k S T none f g i = λ h t. i h (g h t)
IsOldest-mono k S T (some a) f g i = (f a i.0, i.1, λ h t own. i.2 h (g h t) own)

keep_none :
    (k : Text) (S : HttpScaledObject → Type 0) (new : HttpScaledObject)
    → owns new k ≡ false
    → IsOldest k S none
    → IsOldest k (With new S) none
keep_none k S new n i h (inl e) = rw e n
keep_none k S new n i h (inr s) = i h s

keep_some :
    (k : Text) (S : HttpScaledObject → Type 0) (new a h : HttpScaledObject)
    → (owns new k ≡ true → a.creation_timestamp ≤ new.creation_timestamp)
    → IsOldest k S (some a)
    → With new S h
    → owns h k ≡ true
    → a.creation_timestamp ≤ h.creation_timestamp
keep_some k S new a h n i (inl e) o = rw e (n (rw (← e) o))
keep_some k S new a h n i (inr s) o = i.2 h s o

first_own :
    (k : Text) (S : HttpScaledObject → Type 0) (new h : HttpScaledObject)
    → IsOldest k S none
    → With new S h
    → owns h k ≡ true
    → new.creation_timestamp ≤ h.creation_timestamp
first_own k S new h i (inl e) o = rw e (omega arith)
first_own k S new h i (inr s) o = absurd (cc (i h s))

replace_some :
    (k : Text) (S : HttpScaledObject → Type 0) (new a h : HttpScaledObject)
    → new.creation_timestamp ≤ a.creation_timestamp
    → IsOldest k S (some a)
    → With new S h
    → owns h k ≡ true
    → new.creation_timestamp ≤ h.creation_timestamp
replace_some k S new a h n i (inl e) o = rw e (omega arith)
replace_some k S new a h n i (inr s) o = omega (arith, i.2 h s o)

put-IsOldest :
    (k : Text) (S : HttpScaledObject → Type 0) (new : HttpScaledObject) (b : Bool)
    (old : Option HttpScaledObject)
    → owns new k ≡ b
    → IsOldest k S old
    → IsOldest k (With new S) (put b new old)
put-IsOldest k S new false none e i = keep_none k S new e i
put-IsOldest k S new false (some a) e i =
    (inr i.0, i.1, λ h s o. keep_some k S new a h (λ t. absurd (cc e)) i s o)
put-IsOldest k S new true none e i = (inl refl, e, λ h s o. first_own k S new h i s o)
put-IsOldest k S new true (some a) e i = elim (dec_lt a.creation_timestamp new.creation_timestamp) [
  | yes p ↦
      let younger : ltb a.creation_timestamp new.creation_timestamp ≡ true = ground arith in
      rw younger (inr i.0, i.1, λ h s o. keep_some k S new a h (λ t. omega arith) i s o)
  | no p ↦
      let older : ltb a.creation_timestamp new.creation_timestamp ≡ false = ground arith in
      rw older (inl refl, e, λ h s o. replace_some k S new a h (omega arith) i s o)
]

module _ (S : HttpScaledObject → Type 0) (x : HttpScaledObject) (l : List HttpScaledObject) where
  regroup : (h : HttpScaledObject) → With x S h ⊎ In h l → S h ⊎ In h (x ∷ l)
  regroup h (inl (inl e)) = inr (inl e)
  regroup h (inl (inr s)) = inl s
  regroup h (inr m) = inr (inr m)

  group : (h : HttpScaledObject) → S h ⊎ In h (x ∷ l) → With x S h ⊎ In h l
  group h (inl s) = inl (inr s)
  group h (inr (inl e)) = inl (inl e)
  group h (inr (inr m)) = inr m

from_none : (h : HttpScaledObject) (l : List HttpScaledObject) → ⊥ ⊎ In h l → In h l
from_none h l (inl s) = absurd s
from_none h l (inr m) = m

drop_nil : (S : HttpScaledObject → Type 0) (h : HttpScaledObject) → S h ⊎ In h [] → S h
drop_nil S h (inl s) = s
drop_nil S h (inr m) = absurd m

module _ (rt : Radix HttpScaledObject) where
  open rt use {Tree, get, insert, insert_old, get-insert}

  -- One key of the loop.
  get-store_key :
      (x k : Text) (h : HttpScaledObject) (t : Tree)
      → get (if is_younger h (insert t x h).1 then t else (insert t x h).0) k
        ≡ put (text_eq x k) h (get t k)
  get-store_key x k h t = elim (Bool-cases (text_eq x k)) [
    | inl p ↦
        let e : x ≡ k = (text_eq_iff x k).0 p in
        rw (insert_old t x h, e)
          (elim (Bool-cases (is_younger h (get t k))) [
            | inl y ↦ rw (y, text_eq_self k, y)
            | inr y ↦ rw (y, get-insert t k k h, text_eq_self k, y)
          ])
    | inr p ↦
        rw (insert_old t x h, p)
          (elim (Bool-cases (is_younger h (get t x))) [
            | inl y ↦ rw y
            | inr y ↦ rw (y, get-insert t x k h, p)
          ])
  ]

  put-put :
      (b c : Bool) (h : HttpScaledObject) (o : Option HttpScaledObject)
      → put c h (put b h o) ≡ put (b || c) h o
  put-put b c h o = ground arith

  get-store_keys :
      (keys : List Text) (k : Text) (h : HttpScaledObject) (t : Tree)
      → get (store_keys rt keys h t) k ≡ put (has_key k keys) h (get t k)
  unfolding store_keys
  get-store_keys [] k h t = refl
  get-store_keys (x ∷ keys) k h t =
      get-store_keys keys k h (if is_younger h (insert t x h).1 then t else (insert t x h).0)
      ∙ ap (put (has_key k keys) h) (get-store_key x k h t)
      ∙ put-put (text_eq x k) (has_key k keys) h (get t k)

  new_table_memory-IsOldest : (k : Text) → IsOldest k (λ h. ⊥) (get (new_table_memory rt).store k)
  unfolding new_table_memory
  new_table_memory-IsOldest k = rw rt.get-empty (λ h s. absurd s)

  pub get-remember :
      (tm : TableMemory rt) (k : Text) (h : HttpScaledObject)
      → get (remember rt tm (some h)).store k ≡ put (owns h k) h (get tm.store k)
  unfolding remember
  get-remember tm k h = get-store_keys (new_keys_from_httpso (some h)) k h tm.store

  remember_all_from-IsOldest :
      (l : List HttpScaledObject) (S : HttpScaledObject → Type 0) (tm : TableMemory rt) (k : Text)
      → IsOldest k S (get tm.store k)
      → IsOldest k (λ h. S h ⊎ In h l) (get (remember_all rt tm l).store k)
  unfolding remember_all
  remember_all_from-IsOldest [] S tm k i =
      IsOldest-mono k S _ (get tm.store k) (λ h s. inl s) (drop_nil S) i
  remember_all_from-IsOldest (x ∷ l) S tm k i =
      IsOldest-mono k (λ h. With x S h ⊎ In h l) (λ h. S h ⊎ In h (x ∷ l))
        (get (remember_all rt (remember rt tm (some x)) l).store k) (regroup S x l) (group S x l)
        (remember_all_from-IsOldest l (With x S) (remember rt tm (some x)) k
          (rw (get-remember tm k x) (put-IsOldest k S x (owns x k) (get tm.store k) refl i)))

  -- In the memory that is built from a list of objects, each key holds an object of the list that
  -- owns the key and was created no later than any other that does; it holds none only if no object
  -- owns it.
  pub remember_all-IsOldest :
      (l : List HttpScaledObject) (k : Text)
      → IsOldest k (λ h. In h l) (get (remember_all rt (new_table_memory rt) l).store k)
  remember_all-IsOldest l k =
      IsOldest-mono k (λ h. ⊥ ⊎ In h l) (λ h. In h l)
        (get (remember_all rt (new_table_memory rt) l).store k) (λ h s. from_none h l s)
        (λ h s. inr s)
        (remember_all_from-IsOldest l (λ h. ⊥) (new_table_memory rt) k
          (new_table_memory-IsOldest k))
