-- ===== src/Queue/Average/Sums.antt =====
-- Sums round a ring of buckets, modulo 2 ^ 64.
use native.Mathlib.Nat.{zero-add, add-zero, suc-add, mod-eq_of_lt, add-mul-mod_self_left}
use mathlib.Core.Path.{ap₂}
use http_add_on.Prelude.{
  ℕ, zero, suc, ◌+◌, ◌*◌, ◌%◌, ◌<◌, ◌≡◌, refl, sym, ap, ◌∙◌, List, [], ◌∷◌, arith, length, get_or,
}
use http_add_on.Prelude.Word.{add64, sub64, word_mod}
use http_add_on.Queue.Buckets.Clear.{sum64, sum64-lt}
use http_add_on.Queue.Average.{take_outdated}

abbrev drop : ℕ → List ℕ → List ℕ
drop zero xs = xs
drop (suc n) [] = []
drop (suc n) (x ∷ xs) = drop n xs

add-mod_self : (k n : ℕ) → (k + n) % n ≡ k % n
add-mod_self k n = let e : k + n * 1 ≡ k + n = omega arith in rw e at (add-mul-mod_self_left k n 1)

-- The buckets of `m` rounds from round `k`.
unfoldable pub ring_sum : List ℕ → ℕ → ℕ → ℕ
ring_sum bs k zero = 0
ring_sum bs k (suc m) = add64 (get_or bs (k % length bs) 0) (ring_sum bs (suc k) m)

pub ring_sum-lt : (bs : List ℕ) (k m : ℕ) → ring_sum bs k m < word_mod
unfolding ring_sum
ring_sum-lt bs k zero = omega arith
ring_sum-lt bs k (suc m) = omega arith

pub ring_sum-add :
    (bs : List ℕ) (k m j : ℕ)
    → ring_sum bs k (m + j) ≡ add64 (ring_sum bs k m) (ring_sum bs (k + m) j)
unfolding ring_sum
ring_sum-add bs k zero j = rw (zero-add, add-zero) (omega (arith, ring_sum-lt bs k j))
ring_sum-add bs k (suc m) j =
    let e : k + suc m ≡ suc k + m = omega arith in
    rw (suc-add, e) (omega (arith, ring_sum-add bs (suc k) m j))

-- A whole turn later the same buckets are met.
pub ring_sum_turn :
    (bs : List ℕ) (k m : ℕ) → 0 < length bs → ring_sum bs (k + length bs) m ≡ ring_sum bs k m
unfolding ring_sum
ring_sum_turn bs k zero h = refl
ring_sum_turn bs k (suc m) h =
    ap₂ (λ x y. add64 (get_or bs x 0) y) (add-mod_self k (length bs))
      (ap (λ x. ring_sum bs x m) (sym (suc-add k (length bs))) ∙ ring_sum_turn bs (suc k) m h)

ring_sum_shift :
    (bs : List ℕ) (k : ℕ)
    → 0 < length bs
    → ring_sum bs (suc k) (length bs) ≡ ring_sum bs k (length bs)
ring_sum_shift bs k h =
    let n = length bs in
    let both : 1 + n ≡ n + 1 = omega arith in
    let next : k + 1 ≡ suc k = omega arith in
    omega (
      arith,
      ring_sum-add bs k n 1,
      rw (both, next) at (ring_sum-add bs k 1 n),
      ring_sum_turn bs k 1 h,
      ring_sum-lt bs k n,
      ring_sum-lt bs (suc k) n,
    )

drop-length : (bs : List ℕ) (i : ℕ) → i ≡ length bs → sum64 (drop i bs) ≡ 0
drop-length [] zero h = refl
drop-length [] (suc i) h = refl
drop-length (x ∷ bs) zero h = absurd (omega arith)
drop-length (x ∷ bs) (suc i) h = drop-length bs i (omega arith)

sum64-drop :
    (bs : List ℕ) (i : ℕ)
    → i < length bs
    → sum64 (drop i bs) ≡ add64 (get_or bs i 0) (sum64 (drop (suc i) bs))
sum64-drop [] i h = elim h [ ]
sum64-drop (x ∷ bs) zero h = refl
sum64-drop (x ∷ bs) (suc i) h = sum64-drop bs i (omega arith)

ring_sum-drop : (bs : List ℕ) (i m : ℕ) → i + m ≡ length bs → ring_sum bs i m ≡ sum64 (drop i bs)
unfolding ring_sum
ring_sum-drop bs i zero h = sym (drop-length bs i (omega arith))
ring_sum-drop bs i (suc m) h =
    let inside : i < length bs = omega arith in
    rw (mod-eq_of_lt inside) (
      ap (add64 (get_or bs i 0)) (ring_sum-drop bs (suc i) m (omega arith))
      ∙ sym (sum64-drop bs i inside))

ring_sum_start : (bs : List ℕ) → ring_sum bs 0 (length bs) ≡ sum64 bs
ring_sum_start bs = ring_sum-drop bs 0 (length bs) (omega arith)

-- One whole turn, from any round, is the sum of all buckets.
pub ring_sum_all : (bs : List ℕ) (k : ℕ) → 0 < length bs → ring_sum bs k (length bs) ≡ sum64 bs
ring_sum_all bs zero h = ring_sum_start bs
ring_sum_all bs (suc k) h = ring_sum_shift bs k h ∙ ring_sum_all bs k h

pub take_outdated-ring_sum :
    (bs : List ℕ) (rounds i ret : ℕ)
    → add64 (take_outdated rounds i bs ret) (ring_sum bs i rounds) ≡ ret % word_mod
unfolding take_outdated ring_sum
take_outdated-ring_sum bs zero i ret = omega arith
take_outdated-ring_sum bs (suc r) i ret =
    omega (arith, take_outdated-ring_sum bs r (suc i) (sub64 ret (get_or bs (i % length bs) 0)))

pub take_outdated-lt :
    (bs : List ℕ) (rounds i ret : ℕ) → ret < word_mod → take_outdated rounds i bs ret < word_mod
unfolding take_outdated
take_outdated-lt bs zero i ret h = h
take_outdated-lt bs (suc r) i ret h =
    take_outdated-lt bs r (suc i) (sub64 ret (get_or bs (i % length bs) 0)) (omega arith)

-- What stays of a whole turn from round `k` when its first `m` rounds are taken off, which the loop
-- meets one turn later.
pub take_outdated-turn :
    (bs : List ℕ) (k m j : ℕ)
    → 0 < length bs
    → m + j ≡ length bs
    → take_outdated m (k + length bs) bs (sum64 bs) ≡ ring_sum bs (k + m) j
take_outdated-turn bs k m j h e = omega (
  arith,
  take_outdated-ring_sum bs m (k + length bs) (sum64 bs),
  take_outdated-lt bs m (k + length bs) (sum64 bs) (sum64-lt bs),
  ring_sum_turn bs k m h,
  ring_sum_all bs k h,
  rw e at (ring_sum-add bs k m j),
  ring_sum-lt bs (k + m) j,
  sum64-lt bs,
)
