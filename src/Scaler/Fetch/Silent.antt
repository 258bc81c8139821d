-- ===== src/Scaler/Fetch/Silent.antt =====
-- A fetch from an interceptor that does not answer.
use http_add_on.Prelude.{ℕ, ◌≤◌, ◌≡◌, ◌≢◌, refl, ◌∙◌, some, List, [], ◌∷◌, ◌++◌, map, arith}
use http_add_on.Queue.Float.{Float64}
use http_add_on.Scaler.Fetch.{
  Answer, counts, refused, silent, Pair, asking, sending, failed, forwarding, done, waiting, World,
  start, answered, total, fetching, Step, answer, hand_over, receive, close, all_fetched,
  fetch_failed, finish, Run, here, next,
}
use http_add_on.Scaler.Fetch.Sums.{total-middle, keeping_silent}

module _ (f : Float64) where
  abbrev silence : World f → ℕ
  silence w = total f (keeping_silent f) w.pairs

  silence-le-fetching : (l : List (Pair f)) → total f (keeping_silent f) l ≤ total f (fetching f) l
  silence-le-fetching [] = omega arith
  silence-le-fetching (asking (counts c) ∷ l) = omega (arith, silence-le-fetching l)
  silence-le-fetching (asking refused ∷ l) = omega (arith, silence-le-fetching l)
  silence-le-fetching (asking silent ∷ l) = omega (arith, silence-le-fetching l)
  silence-le-fetching (sending c ∷ l) = omega (arith, silence-le-fetching l)
  silence-le-fetching (failed ∷ l) = omega (arith, silence-le-fetching l)
  silence-le-fetching (forwarding c ∷ l) = omega (arith, silence-le-fetching l)
  silence-le-fetching (done ∷ l) = omega (arith, silence-le-fetching l)

  answered-silence :
      (a : Answer f) (p : Pair f)
      → answered f a ≡ some p
      → keeping_silent f p ≡ keeping_silent f (asking a)
  answered-silence (counts c) p e = let q : sending c ≡ p = cc in rw (← q) refl
  answered-silence refused p e = let q : failed ≡ p = cc in rw (← q) refl
  answered-silence silent p e = absurd (cc)

  -- No step is one of an interceptor that keeps silent, and the group does not end before.
  Step-waiting :
      {w v : World f}
      → Step f w v
      → silence w ≢ 0
      → w.main ≡ waiting
      → (v.main ≡ waiting) × (silence v ≡ silence w)
  Step-waiting {w} (answer before a p after e k s) h m =
      rw (s, e)
        (
          m,
          omega (
            arith,
            answered-silence a p k,
            total-middle f (keeping_silent f) before (asking a) after,
            total-middle f (keeping_silent f) before p after,
          ),
        )
  Step-waiting {w} (hand_over before c after e s) h m =
      rw (s, e)
        (
          m,
          omega (
            arith,
            total-middle f (keeping_silent f) before (sending c) after,
            total-middle f (keeping_silent f) before (forwarding c) after,
          ),
        )
  Step-waiting {w} (receive sum before c after e k s) h m = absurd (cc)
  Step-waiting {w} (close e k s) h m = rw s (m, refl)
  Step-waiting {w} (all_fetched e k l s) h m =
      absurd (h (omega (arith, k, silence-le-fetching w.pairs)))
  Step-waiting {w} (fetch_failed e k l s) h m =
      absurd (h (omega (arith, k, silence-le-fetching w.pairs)))
  Step-waiting {w} (finish sum e k s) h m = absurd (cc)

  still_waiting :
      {s : World f} {k : ℕ} {w : World f}
      → Run f s k w
      → silence s ≢ 0
      → s.main ≡ waiting
      → (w.main ≡ waiting) × (silence w ≡ silence s)
  still_waiting (here w e) h m = rw e (m, refl)
  still_waiting (next r s) h m =
      let (waits, same) = still_waiting r h m in
      let (still, kept) = Step-waiting s (λ e. h (omega (arith, e, same))) waits in
      (still, kept ∙ same)

  started_silent :
      (before after : List (Answer f))
      → total f (keeping_silent f) (map asking (before ++ (silent ∷ after))) ≢ 0
  started_silent [] after e = omega (arith, e)
  started_silent (a ∷ before) after e = started_silent before after (omega (arith, e))

  -- While an interceptor does not answer, the fetch waits, whatever the others answer and however long
  -- it goes on: the request has no timeout.
  pub silent_waits :
      (before after : List (Answer f)) {k : ℕ} {w : World f}
      → Run f (start f (before ++ (silent ∷ after))) k w
      → w.main ≡ waiting
  unfolding start
  silent_waits [] after r = (still_waiting r (started_silent [] after) refl).0
  silent_waits (a ∷ before) after r = (still_waiting r (started_silent (a ∷ before) after) refl).0
