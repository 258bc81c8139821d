-- ===== src/Operator/Finalizer/Once.antt =====
-- `remove` of a text that stands once in the list.
use native.Mathlib.Nat.{zero-add, add-zero, suc-add}
use mathlib.Core.List.{append_assoc}
use http_add_on.Prelude.{
  ℕ, zero, suc, ◌+◌, ◌-◌, ◌<◌, ◌≡◌, refl, sym, ap, ◌∙◌, true, false, Option, some, List, [], ◌∷◌,
  ◌++◌, leb, length, length-append, get_elem?, take, drop, arith,
}
use http_add_on.Prelude.Text.{Text, text_eq, text_eq_self}
use http_add_on.Operator.Finalizer.{contains, delete_at, remove_loop, remove}

suc_of : (n : ℕ) → 1 + n ≡ suc n
suc_of n = omega arith

take-append : (a r : List Text) → take (length a) (a ++ r) ≡ a
take-append [] r = refl
take-append (x ∷ a) r = ap (λ l. x ∷ l) (take-append a r)

take_all : (l : List Text) → take (length l) l ≡ l
take_all [] = refl
take_all (x ∷ l) = ap (λ l. x ∷ l) (take_all l)

drop-append : (a r : List Text) (n : ℕ) → drop (length a + n) (a ++ r) ≡ drop n r
drop-append [] r n = ap (λ k. drop k r) (zero-add n)
drop-append (x ∷ a) r n = ap (λ k. drop k (x ∷ a ++ r)) (suc-add (length a) n) ∙ drop-append a r n

length-drop : (n : ℕ) (l : List Text) → length (drop n l) ≡ length l - n
length-drop zero l = omega arith
length-drop (suc n) [] = omega arith
length-drop (suc n) (x ∷ l) = omega (arith, length-drop n l)

contains-drop :
    (n : ℕ) (l : List Text) (s : Text) → contains l s ≡ false → contains (drop n l) s ≡ false
unfolding contains
contains-drop zero l s h = h
contains-drop (suc n) [] s h = h
contains-drop (suc n) (x ∷ l) s h = contains-drop n l s (ground (arith, h))

contains-append_absent :
    (a b : List Text) (s : Text)
    → contains a s ≡ false
    → contains b s ≡ false
    → contains (a ++ b) s ≡ false
unfolding contains
contains-append_absent [] b s h k = k
contains-append_absent (x ∷ a) b s h k = ground (arith, contains-append_absent a b s)

get_elem-append : (a r : List Text) (j : ℕ) → get_elem? (a ++ r) (length a + j) ≡ get_elem? r j
get_elem-append [] r j = ap (get_elem? r) (zero-add j)
get_elem-append (x ∷ a) r j =
    ap (get_elem? (x ∷ a ++ r)) (suc-add (length a) j) ∙ get_elem-append a r j

-- What stands at an index of a list that does not have `s`.
abbrev Other : Text → Option Text → Type 0
Other s o = (v : Text) × (o ≡ some v) × (text_eq v s ≡ false)

absent_get-Other :
    (l : List Text) (s : Text) (j : ℕ)
    → contains l s ≡ false
    → j < length l
    → Other s (get_elem? l j)
unfolding contains
absent_get-Other [] s j h k = absurd (omega arith)
absent_get-Other (x ∷ l) s zero h k = (x, refl, ground (arith, h))
absent_get-Other (x ∷ l) s (suc j) h k = absent_get-Other l s j (ground (arith, h)) (omega arith)

get_elem-append_left :
    (l r : List Text) (j : ℕ) → j < length l → get_elem? (l ++ r) j ≡ get_elem? l j
get_elem-append_left [] r j k = absurd (omega arith)
get_elem-append_left (x ∷ l) r zero k = refl
get_elem-append_left (x ∷ l) r (suc j) k = get_elem-append_left l r j (omega arith)

remove_loop-skip :
    (k m i len : ℕ) (array : List Text) (s : Text)
    → ((j : ℕ) → j < k → Other s (get_elem? array (i + j)))
    → remove_loop (k + m) i len array s ≡ remove_loop m (i + k) len array s
unfolding remove_loop
remove_loop-skip zero m i len array s h = let e : i + 0 ≡ i = omega arith in rw (zero-add m, e) refl
remove_loop-skip (suc k) m i len array s h =
    let (v, e, other) = h 0 (omega arith) in
    let here : i + 0 ≡ i = omega arith in
    let next : (j : ℕ) → j < k → Other s (get_elem? array (i + 1 + j)) = λ j b.
      let shift : i + suc j ≡ i + 1 + j = omega arith in rw shift at (h (suc j) (omega arith)) in
    let ends : i + suc k ≡ i + 1 + k = omega arith in
    rw (suc-add k m, remove_loop, rw here at e, other, ends)
      (remove_loop-skip k m (i + 1) len array s next)

-- What is behind the slice's end after the deletion: its last element, once more.
abbrev stale : Text → List Text → List Text
stale s b = drop (length b) (s ∷ b)

length-stale : (s : Text) (b : List Text) → length (stale s b) ≡ 1
length-stale s b = omega (arith, length-drop (length b) (s ∷ b))

rest-Other :
    (s : Text) (b : List Text) (j : ℕ)
    → contains b s ≡ false
    → j < length b
    → Other s (get_elem? (b ++ stale s b) (1 + j))
rest-Other s [] j h k = absurd (omega arith)
rest-Other s (y ∷ b) j h k =
    absent_get-Other (y ∷ b ++ stale s (y ∷ b)) s (1 + j)
      (contains-append_absent (y ∷ b) (stale s (y ∷ b)) s h (contains-drop (length b) (y ∷ b) s h))
      (omega (arith, length-append (y ∷ b) (stale s (y ∷ b)), length-stale s (y ∷ b)))

module _ (a b : List Text) (s : Text) where
  abbrev list : List Text
  list = a ++ s ∷ b

  abbrev moved : List Text
  moved = a ++ (b ++ stale s b)

  length-list : length list ≡ length a + (1 + length b)
  length-list = omega (arith, length-append a (s ∷ b))

  delete_at-list : delete_at (length a) (length list) list ≡ some (moved, length (a ++ b))
  unfolding delete_at
  delete_at-list =
      let inside : leb (length a + 1) (length list) ≡ true = ground (arith, length-list) in
      let len : length list - 1 ≡ length (a ++ b) = omega (arith, length-list, length-append a b) in
      let same : length (a ++ b) ≡ length a + length b = length-append a b in
      let behind : drop (length (a ++ b)) list ≡ stale s b =
        ap (λ n. drop n list) same ∙ drop-append a (s ∷ b) (length b) in
      rw (inside, len, take_all list, take-append a (s ∷ b), drop-append a (s ∷ b) 1, behind) refl

  moved-take : take (length (a ++ b)) moved ≡ a ++ b
  moved-take =
      ap (take (length (a ++ b))) (sym (append_assoc a b (stale s b)))
      ∙ take-append (a ++ b) (stale s b)

  step :
      remove_loop (1 + length b) (length a) (length list) list s
      ≡ remove_loop (length b) (length a + 1) (length (a ++ b)) moved s
  unfolding remove_loop
  step =
      let at : get_elem? list (length a) ≡ some s =
        ap (get_elem? list) (sym (add-zero (length a))) ∙ get_elem-append a (s ∷ b) 0 in
      rw (suc_of (length b), remove_loop, at, text_eq_self s, delete_at-list) refl

  -- A text that stands once in a list is removed, and nothing else: what is before it and behind it
  -- stays, in its order, and the loop does not panic.
  pub remove_once : contains a s ≡ false → contains b s ≡ false → remove list s ≡ some (a ++ b)
  unfolding remove remove_loop
  remove_once h k =
      let first : (j : ℕ) → j < length a → Other s (get_elem? list (0 + j)) =
        λ j c. rw (zero-add j, get_elem-append_left a (s ∷ b) j c) (absent_get-Other a s j h c) in
      let second : (j : ℕ) → j < length b → Other s (get_elem? moved (length a + 1 + j)) = λ j c.
        let shift : length a + 1 + j ≡ length a + (1 + j) = omega arith in
        rw (shift, get_elem-append a (b ++ stale s b) (1 + j)) (rest-Other s b j k c) in
      let all : length b + 0 ≡ length b = omega arith in
      ap (λ n. remove_loop n 0 (length list) list s) length-list
      ∙ remove_loop-skip (length a) (1 + length b) 0 (length list) list s first
      ∙ ap (λ i. remove_loop (1 + length b) i (length list) list s) (zero-add (length a))
      ∙ step
      ∙ ap (λ n. remove_loop n (length a + 1) (length (a ++ b)) moved s) (sym all)
      ∙ remove_loop-skip (length b) 0 (length a + 1) (length (a ++ b)) moved s second
      ∙ ap some moved-take
