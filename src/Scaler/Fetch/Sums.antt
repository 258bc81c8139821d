-- ===== src/Scaler/Fetch/Sums.antt =====
-- Weights of the goroutines that a step leaves.
use native.Mathlib.Decide.{ℕ_discrete}
use http_add_on.Prelude.{ℕ, ◌+◌, ◌≡◌, ◌≢◌, refl, ap, List, [], ◌∷◌, ◌++◌, length, arith}
use mathlib.Core.List.{append_assoc}
use http_add_on.Queue.Float.{Float64}
use http_add_on.Scaler.Pinger.{Counts}
use http_add_on.Scaler.Fetch.{
  counts, refused, silent, Pair, asking, sending, failed, forwarding, done, total, fetching,
  failing, busy,
}

module _ (f : Float64) where
  pub total-middle :
      (weight : Pair f → ℕ) (before : List (Pair f)) (p : Pair f) (after : List (Pair f))
      → total f weight (before ++ (p ∷ after))
        ≡ total f weight before + (weight p + total f weight after)
  total-middle weight [] p after = omega arith
  total-middle weight (q ∷ before) p after = omega (arith, total-middle weight before p after)

  pub record Found (weight : Pair f → ℕ) (l : List (Pair f)) : Type 0 where
    pub before : List (Pair f)
    pub pair : Pair f
    pub after : List (Pair f)
    pub there : l ≡ before ++ (pair ∷ after)
    pub weighs : weight pair ≢ 0

  pub total-Found :
      (weight : Pair f → ℕ) (l : List (Pair f)) → total f weight l ≢ 0 → Found weight l
  total-Found weight [] h = absurd (h refl)
  total-Found weight (p ∷ l) h = elim (ℕ_discrete (weight p) 0) [
    | no some_weight ↦ record {
      before = [];
      pair = p;
      after = l;
      there = refl;
      weighs = some_weight;
    }
    | yes none ↦
        let r = total-Found weight l (λ e. h (omega (arith, e))) in
        record {
          before = p ∷ r.before;
          pair = r.pair;
          after = r.after;
          there = ap (λ t. p ∷ t) r.there;
          weighs = r.weighs;
        }
  ]

  -- The counts that have not been received.
  abbrev pub held : Pair f → List (Counts f)
  held (asking (counts c)) = c ∷ []
  held (asking refused) = []
  held (asking silent) = []
  held (sending c) = c ∷ []
  held failed = []
  held (forwarding c) = c ∷ []
  held done = []

  abbrev pub pending : List (Pair f) → List (Counts f)
  pending [] = []
  pending (p ∷ l) = held p ++ pending l

  pub pending-middle :
      (before : List (Pair f)) (p : Pair f) (after : List (Pair f))
      → pending (before ++ (p ∷ after)) ≡ pending before ++ (held p ++ pending after)
  pending-middle [] p after = refl
  pending-middle (q ∷ before) p after = simp (pending-middle before p after, append_assoc)

  pub idle-pending : (l : List (Pair f)) → total f (busy f) l ≡ 0 → pending l ≡ []
  idle-pending [] h = refl
  idle-pending (done ∷ l) h = idle-pending l (omega (arith, h))
  idle-pending (asking a ∷ l) h = absurd (omega (arith, h))
  idle-pending (sending c ∷ l) h = absurd (omega (arith, h))
  idle-pending (failed ∷ l) h = absurd (omega (arith, h))
  idle-pending (forwarding c ∷ l) h = absurd (omega (arith, h))

  -- An interceptor that refuses, or has refused.
  abbrev pub refusing : Pair f → ℕ
  refusing (asking (counts c)) = 0
  refusing (asking refused) = 1
  refusing (asking silent) = 0
  refusing (sending c) = 0
  refusing failed = 1
  refusing (forwarding c) = 0
  refusing done = 0

  abbrev pub keeping_silent : Pair f → ℕ
  keeping_silent (asking (counts c)) = 0
  keeping_silent (asking refused) = 0
  keeping_silent (asking silent) = 1
  keeping_silent (sending c) = 0
  keeping_silent failed = 0
  keeping_silent (forwarding c) = 0
  keeping_silent done = 0

  abbrev pub finished : Pair f → ℕ
  finished (asking a) = 0
  finished (sending c) = 0
  finished failed = 0
  finished (forwarding c) = 0
  finished done = 1

  -- Once no goroutine asks, those that refuse have failed.
  pub fetched-failing :
      (l : List (Pair f)) → total f (fetching f) l ≡ 0 → total f (failing f) l ≡ total f refusing l
  fetched-failing [] h = refl
  fetched-failing (asking a ∷ l) h = absurd (omega (arith, h))
  fetched-failing (sending c ∷ l) h = absurd (omega (arith, h))
  fetched-failing (failed ∷ l) h = omega (arith, fetched-failing l (omega (arith, h)))
  fetched-failing (forwarding c ∷ l) h = omega (arith, fetched-failing l (omega (arith, h)))
  fetched-failing (done ∷ l) h = omega (arith, fetched-failing l (omega (arith, h)))

  -- While no pair has finished, all are busy.
  pub unfinished-busy : (l : List (Pair f)) → total f finished l ≡ 0 → total f (busy f) l ≡ length l
  unfinished-busy [] h = refl
  unfinished-busy (asking a ∷ l) h = omega (arith, unfinished-busy l (omega (arith, h)))
  unfinished-busy (sending c ∷ l) h = omega (arith, unfinished-busy l (omega (arith, h)))
  unfinished-busy (failed ∷ l) h = omega (arith, unfinished-busy l (omega (arith, h)))
  unfinished-busy (forwarding c ∷ l) h = omega (arith, unfinished-busy l (omega (arith, h)))
  unfinished-busy (done ∷ l) h = absurd (omega (arith, h))
