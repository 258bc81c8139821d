-- ===== src/Scaler/Fetch/Cost.antt =====
-- How many steps a fetch of scaler/queue_pinger.go has left.
use http_add_on.Prelude.{
  ℕ, ◌+◌, ◌*◌, ◌≤◌, ◌<◌, ◌≡◌, refl, ap, map, length, Bool, true, false, some, List, [], ◌∷◌, length,
  arith,
}
use http_add_on.Queue.Float.{Float64}
use http_add_on.Scaler.Fetch.{
  Answer, counts, refused, silent, Pair, asking, sending, failed, forwarding, done, Main, waiting,
  ranging, returned, World, start, answered, total, Step, answer, hand_over, receive, close,
  all_fetched, fetch_failed, finish, Run, here, next,
}
use http_add_on.Scaler.Fetch.Sums.{total-middle}

module _ (f : Float64) where
  -- How many steps are left at most.
  abbrev pub cost : Pair f → ℕ
  cost (asking a) = 3
  cost (sending c) = 2
  cost failed = 0
  cost (forwarding c) = 1
  cost done = 0

  abbrev pub main_cost : Main f → ℕ
  main_cost waiting = 2
  main_cost (ranging sum) = 1
  main_cost (returned r) = 0

  abbrev pub open_cost : Bool → ℕ
  open_cost false = 1
  open_cost true = 0

  abbrev pub left : World f → ℕ
  left w = total f cost w.pairs + main_cost w.main + open_cost w.closed

  answered-cost : (a : Answer f) (p : Pair f) → answered f a ≡ some p → cost p < 3
  answered-cost (counts c) p e = let q : sending c ≡ p = cc in rw (← q) (omega arith)
  answered-cost refused p e = let q : failed ≡ p = cc in rw (← q) (omega arith)
  answered-cost silent p e = absurd (cc)

  -- Less is left after a step.
  Step-left : {w v : World f} → Step f w v → left v < left w
  Step-left {w} (answer before a p after e k s) =
      rw (s, e)
        (omega (
          arith,
          answered-cost a p k,
          total-middle f cost before (asking a) after,
          total-middle f cost before p after,
        ))
  Step-left {w} (hand_over before c after e s) =
      rw (s, e)
        (omega (
          arith,
          total-middle f cost before (sending c) after,
          total-middle f cost before (forwarding c) after,
        ))
  Step-left {w} (receive sum before c after e k s) =
      rw (s, e, k)
        (omega (
          arith,
          total-middle f cost before (forwarding c) after,
          total-middle f cost before done after,
        ))
  Step-left {w} (close e k s) = rw (s, e) (omega arith)
  Step-left {w} (all_fetched e k l s) = rw (s, e) (omega arith)
  Step-left {w} (fetch_failed e k l s) = rw (s, e) (omega arith)
  Step-left {w} (finish sum e k s) = rw (s, e) (omega arith)

  asking-cost : (answers : List (Answer f)) → total f cost (map asking answers) ≡ 3 * length answers
  asking-cost [] = refl
  asking-cost (a ∷ answers) = omega (arith, asking-cost answers)

  pub left-start : (answers : List (Answer f)) → left (start f answers) ≤ 3 * length answers + 3
  unfolding start
  left-start [] = omega arith
  left-start (a ∷ answers) = omega (arith, asking-cost (a ∷ answers))

  -- Where nothing is left, no step is made.
  pub Run-ended : {s : World f} {k : ℕ} {w : World f} → Run f s k w → left s ≡ 0 → w ≡ s
  Run-ended (here w e) h = e
  Run-ended (next r t) h =
      let same = Run-ended r h in absurd (omega (arith, Step-left t, ap left same, h))

  pub Run-left : {s : World f} {k : ℕ} {w : World f} → Run f s k w → k + left w ≤ left s
  Run-left (here w e) = rw e (omega arith)
  Run-left (next r s) = omega (arith, Run-left r, Step-left s)
