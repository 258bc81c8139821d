-- ===== src/Queue/Buckets/Clear.antt =====
-- The sum of the buckets, and what the clearing loop of `Record` does to the ring.
use native.Mathlib.Nat.{div-add-mod, mod-lt}
use native.Mathlib.Decide.{dec_lt}
use http_add_on.Prelude.{
  ℕ, zero, suc, ◌+◌, ◌%◌, ◌≤◌, ◌<◌, ◌≡◌, ◌≢◌, refl, sym, ◌∙◌, List, [], ◌∷◌, arith, length, get_or,
  set, replicate, length-set, get_or-set_self, get_or-set_ne,
}
use http_add_on.Prelude.Word.{add64, sub64}
use http_add_on.Queue.Buckets.{RequestsBuckets, clear_buckets}

abbrev pub sum64 : List ℕ → ℕ
sum64 [] = 0
sum64 (x ∷ xs) = add64 x (sum64 xs)

pub sum64-set :
    (xs : List ℕ) (i v : ℕ)
    → i < length xs
    → add64 (sum64 (set xs i v)) (get_or xs i 0) ≡ add64 (sum64 xs) v
sum64-set [] i v h = elim h [ ]
sum64-set (x ∷ xs) zero v h = omega arith
sum64-set (x ∷ xs) (suc i) v h = omega (arith, sum64-set xs i v (omega arith))

pub sum64-lt : (xs : List ℕ) → sum64 xs < 18446744073709551616
sum64-lt [] = omega arith
sum64-lt (x ∷ xs) = omega arith

pub sum64-replicate : (n : ℕ) → sum64 (replicate n 0) ≡ 0
sum64-replicate zero = refl
sum64-replicate (suc n) = omega (arith, sum64-replicate n)

-- Two numbers less than `n` apart have different remainders.
pub mod_ne : (i j n : ℕ) → i < j → j < i + n → i % n ≢ j % n
mod_ne i j n h k e = grind (arith, div-add-mod i n, div-add-mod j n)

-- A write into a slot of a ring of `n` buckets, read back in that slot and in another.
module _ (bs : List ℕ) (n : ℕ) (size : length bs ≡ n) (pos : 0 < n) where
  pub slot_self : (k v : ℕ) → get_or (set bs (k % length bs) v) (k % n) 0 ≡ v
  slot_self k v = rw (← size) (get_or-set_self bs (k % length bs) v 0 (mod-lt k (omega arith)))

  pub slot_ne :
      (k j v : ℕ)
      → k % n ≢ j % n
      → get_or (set bs (k % length bs) v) (j % n) 0 ≡ get_or bs (j % n) 0
  slot_ne k j v h = rw size (get_or-set_ne bs (k % n) (j % n) v 0 h)

-- What the loop does in the rounds `i`, …, `i + rounds - 1`, over a ring of `n` buckets.
pub record Cleared (n rounds i : ℕ) (t u : RequestsBuckets) : Type 0 where
  pub first_write : u.first_write ≡ t.first_write
  pub last_write : u.last_write ≡ t.last_write
  pub granularity : u.granularity ≡ t.granularity
  pub window : u.window ≡ t.window
  pub size : length u.buckets ≡ n
  pub total : t.window_total ≡ sum64 t.buckets → u.window_total ≡ sum64 u.buckets
  pub kept :
      (j : ℕ) → j < i → i + rounds ≤ j + n → get_or u.buckets (j % n) 0 ≡ get_or t.buckets (j % n) 0
  pub zeroed : (j : ℕ) → i ≤ j → j < i + rounds → rounds ≤ n → get_or u.buckets (j % n) 0 ≡ 0

module _ (n i : ℕ) (t : RequestsBuckets) (pos : 0 < n) (size : length t.buckets ≡ n) where
  abbrev cleared_one : RequestsBuckets
  cleared_one = record t {
    window_total = sub64 t.window_total (get_or t.buckets (i % length t.buckets) 0);
    buckets = set t.buckets (i % length t.buckets) 0;
  }

  in_ring : i % length t.buckets < length t.buckets
  in_ring = mod-lt i (omega arith)

  total-cleared_one :
      t.window_total ≡ sum64 t.buckets → cleared_one.window_total ≡ sum64 cleared_one.buckets
  total-cleared_one e = omega (
    arith,
    sum64-set t.buckets (i % length t.buckets) 0 in_ring,
    sum64-lt (set t.buckets (i % length t.buckets) 0),
  )

  size-cleared_one : length cleared_one.buckets ≡ n
  size-cleared_one = length-set t.buckets (i % length t.buckets) 0 ∙ size

  self-cleared_one : get_or cleared_one.buckets (i % n) 0 ≡ 0
  self-cleared_one = slot_self t.buckets n size pos i 0

  kept-cleared_one :
      (j : ℕ)
      → j < i
      → i < j + n
      → get_or cleared_one.buckets (j % n) 0 ≡ get_or t.buckets (j % n) 0
  kept-cleared_one j h k =
      rw size (get_or-set_ne t.buckets (i % n) (j % n) 0 0 (λ e. mod_ne j i n h k (sym e)))

pub clear_buckets-Cleared :
    (n rounds i : ℕ) (t : RequestsBuckets)
    → 0 < n
    → length t.buckets ≡ n
    → Cleared n rounds i t (clear_buckets rounds i t)
unfolding clear_buckets
clear_buckets-Cleared n zero i t h s = record {
  first_write = refl;
  last_write = refl;
  granularity = refl;
  window = refl;
  size = s;
  total = λ e. e;
  kept = λ j a b. refl;
  zeroed = λ j a b c. absurd (omega arith);
}
clear_buckets-Cleared n (suc r) i t h s =
    let c = cleared_one n i t h s in
    let rest = clear_buckets-Cleared n r (suc i) c h (size-cleared_one n i t h s) in
    record {
      first_write = rest.first_write;
      last_write = rest.last_write;
      granularity = rest.granularity;
      window = rest.window;
      size = rest.size;
      total = λ e. rest.total (total-cleared_one n i t h s e);
      kept = λ j a b.
          rest.kept j (omega arith) (omega arith) ∙ kept-cleared_one n i t h s j a (omega arith);
      zeroed = λ j a b k. elim (dec_lt i j) [
        | yes p ↦ rest.zeroed j p (omega arith) (omega arith)
        | no p ↦
            let e : j ≡ i = omega arith in
            rw e (rest.kept i (omega arith) (omega arith) ∙ self-cleared_one n i t h s)
      ];
    }
