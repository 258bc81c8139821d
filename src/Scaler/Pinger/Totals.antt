-- ===== src/Scaler/Pinger/Totals.antt =====
-- What the pinger knows after a fetch.
use mathlib.Core.List.{Perm, Permᴰ}
use mathlib.Core.Logic.{∥∥₁_elim}
use native.Mathlib.Nat.{ℕ_set}
use http_add_on.Prelude.{
  ℕ, ◌+◌, ◌%◌, ◌<◌, ◌≡◌, refl, ap, ◌∙◌, Bool, true, false, Option, some, List, [], ◌∷◌,
  if◌then◌else◌, arith, Bool-cases, inl, inr,
}
use http_add_on.Prelude.Text.{Text, text_eq}
use http_add_on.Prelude.Word.{add64, word_mod}
use http_add_on.Prelude.Dict.{lookup, insert, text_Eq, lookup-insert}
use http_add_on.Queue.Float.{Float64}
use http_add_on.Queue.Counts.{Count}
use http_add_on.Scaler.Pinger.{Counts, or_zero, add_counts, add_all}

-- The sum of the concurrencies that the endpoints report for a host, without wrap-around.
module _ (f : Float64) where
  unfoldable pub reported : Text → Counts f → ℕ
  reported host [] = 0
  reported host ((j, v) ∷ rest) = (if text_eq j host then v.concurrency else 0) + reported host rest

  unfoldable pub reported_by_all : Text → List (Counts f) → ℕ
  reported_by_all host [] = 0
  reported_by_all host (counts ∷ rest) = reported host counts + reported_by_all host rest

  abbrev pub known : Text → Counts f → ℕ
  known host total = (or_zero f (lookup host total)).concurrency

  branch :
      (b : Bool) (v : Count f.Carrier) (o : Option (Count f.Carrier))
      → (or_zero f (if b then some v else o)).concurrency
        ≡ (if b then v.concurrency else (or_zero f o).concurrency)
  branch true v o = refl
  branch false v o = refl

  pub known-cons :
      (host j : Text) (v : Count f.Carrier) (m : Counts f)
      → known host ((j, v) ∷ m) ≡ (if text_eq j host then v.concurrency else known host m)
  unfolding lookup
  known-cons host j v m = branch (text_eq j host) v (lookup host m)

  known-insert :
      (host j : Text) (v : Count f.Carrier) (total : Counts f)
      → known host (insert j v total) ≡ (if text_eq j host then v.concurrency else known host total)
  known-insert host j v total =
      ap (λ o. (or_zero f o).concurrency) (lookup-insert j host v total)
      ∙ branch (text_eq j host) v (lookup host total)

  known_of_equal :
      (host j : Text) (total : Counts f) → text_eq j host ≡ true → known j total ≡ known host total
  known_of_equal host j total h = ap (λ k. known k total) ((text_Eq.beq_iff j host).0 h)

  known-add_counts :
      (host : Text) (total counts : Counts f)
      → known host (add_counts f total counts) % word_mod
        ≡ (known host total + reported host counts) % word_mod
  unfolding add_counts reported
  known-add_counts host total [] = omega arith
  known-add_counts host total ((j, v) ∷ rest) =
      let now = known j total in
      let sum : Count f.Carrier = record {
        concurrency = add64 now v.concurrency;
        rps = f.plus (or_zero f (lookup j total)).rps v.rps;
      } in
      let next = insert j sum total in
      let ih = known-add_counts host next rest in
      let k = known-insert host j sum total in
      elim (Bool-cases (text_eq j host)) [
        | inl y ↦
            (let s = known_of_equal host j total y in rw (y) (omega (arith, ih, rw y at k, s)))
        | inr y ↦ rw (y) (omega (arith, ih, rw y at k))
      ]

  known-add_all :
      (host : Text) (total : Counts f) (all : List (Counts f))
      → known host (add_all f total all) % word_mod
        ≡ (known host total + reported_by_all host all) % word_mod
  unfolding add_all reported_by_all
  known-add_all host total [] = omega arith
  known-add_all host total (counts ∷ rest) = omega (
    arith,
    known-add_all host (add_counts f total counts) rest,
    known-add_counts host total counts,
  )

  sum_bound :
      (host j : Text) (v : Count f.Carrier) (total : Counts f)
      → v.concurrency < word_mod
      → known host total < word_mod
      → known host (insert j v total) < word_mod
  sum_bound host j v total hv h = ground (arith, known-insert host j v total)

  known_bound :
      (host : Text) (total counts : Counts f)
      → known host total < word_mod
      → known host (add_counts f total counts) < word_mod
  unfolding add_counts
  known_bound host total [] h = h
  known_bound host total ((j, v) ∷ rest) h =
      let sum : Count f.Carrier = record {
        concurrency = add64 (known j total) v.concurrency;
        rps = f.plus (or_zero f (lookup j total)).rps v.rps;
      } in
      known_bound host (insert j sum total) rest (sum_bound host j sum total (omega arith) h)

  known_bound_all :
      (host : Text) (total : Counts f) (all : List (Counts f))
      → known host total < word_mod
      → known host (add_all f total all) < word_mod
  unfolding add_all
  known_bound_all host total [] h = h
  known_bound_all host total (counts ∷ rest) h =
      known_bound_all host (add_counts f total counts) rest (known_bound host total counts h)

  pub nothing_known : (host : Text) → known host [] ≡ 0
  unfolding lookup
  nothing_known host = refl

  reported-permᴰ :
      (host : Text) {a b : List (Counts f)}
      → Permᴰ a b
      → reported_by_all host a ≡ reported_by_all host b
  unfolding reported_by_all
  reported-permᴰ host Permᴰ.nil = refl
  reported-permᴰ host (Permᴰ.cons e p) = rw e (omega (arith, reported-permᴰ host p))
  reported-permᴰ host (Permᴰ.swap e e') = rw (e, e') (omega arith)
  reported-permᴰ host (Permᴰ.trans p q) = reported-permᴰ host p ∙ reported-permᴰ host q

  reported-perm :
      (host : Text) {a b : List (Counts f)}
      → Perm a b
      → reported_by_all host a ≡ reported_by_all host b
  reported-perm host {a} {b} p = ∥∥₁_elim p (ℕ_set _ _) (reported-permᴰ host)

  -- Whatever the order in which the endpoints' counts arrive, a host's concurrency is the sum of all
  -- that is reported for it, modulo 2 ^ 64; a host that nobody reports has 0.
  pub add_all-total :
      (host : Text) (all arrived : List (Counts f))
      → Perm all arrived
      → known host (add_all f [] arrived) ≡ reported_by_all host all % word_mod
  add_all-total host all arrived p = omega (
    arith,
    known-add_all host [] arrived,
    nothing_known host,
    known_bound_all host [] arrived (omega (arith, nothing_known host)),
    reported-perm host p,
  )
