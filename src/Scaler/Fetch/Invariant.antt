-- ===== src/Scaler/Fetch/Invariant.antt =====
-- What every step keeps.
use mathlib.Core.List.{Perm, append_assoc, perm_middle}
use mathlib.Core.List.Perm
use http_add_on.Prelude.{
  ℕ, ◌≤◌, ◌≡◌, ◌≢◌, refl, sym, ap, ◌∙◌, Bool, true, false, none, some, List, [], ◌∷◌, ◌++◌, arith,
}
use http_add_on.Queue.Float.{Float64}
use http_add_on.Scaler.Pinger.{Counts, add_counts, add_all}
use http_add_on.Scaler.Fetch.{
  Answer, counts, refused, silent, Pair, asking, sending, failed, forwarding, done, Main, waiting,
  ranging, returned, World, answered, total, fetching, busy, Step, answer, hand_over, receive,
  close, all_fetched, fetch_failed, finish,
}
use http_add_on.Scaler.Fetch.Sums.{
  total-middle, held, pending, pending-middle, refusing, keeping_silent, finished, fetched-failing,
}

module _ (f : Float64) where
  pub add_all-append :
      (sum : Counts f) (arrived : List (Counts f)) (c : Counts f)
      → add_all f sum (arrived ++ (c ∷ [])) ≡ add_counts f (add_all f sum arrived) c
  unfolding add_all
  add_all-append sum [] c = refl
  add_all-append sum (d ∷ arrived) c = add_all-append (add_counts f sum d) arrived c

  -- The counts that have arrived, in their order.
  pub record Arrived (all : List (Counts f)) (pairs : List (Pair f)) (sum : Counts f) : Type 0 where
    pub arrived : List (Counts f)
    pub added : sum ≡ add_all f [] arrived
    pub others : Perm (arrived ++ pending f pairs) all

  -- `all` are the counts and `refusals` the number of errors that the interceptors will answer with.
  abbrev pub Phase : List (Counts f) → ℕ → List (Pair f) → Bool → Main f → Type 0
  Phase all refusals pairs closed waiting =
      (pending f pairs ≡ all) × (total f (finished f) pairs ≡ 0)
  Phase all refusals pairs closed (ranging sum) =
      Arrived all pairs sum × (total f (fetching f) pairs ≡ 0) × (refusals ≡ 0)
  Phase all refusals pairs closed (returned none) =
      (total f (finished f) pairs ≡ 0) × (total f (fetching f) pairs ≡ 0) × (refusals ≢ 0)
  Phase all refusals pairs closed (returned (some sum)) =
      Arrived all pairs sum × (total f (busy f) pairs ≡ 0) × (closed ≡ true) × (refusals ≡ 0)

  module _ (all : List (Counts f)) (refusals : ℕ) where
    pub record Inv (w : World f) : Type 0 where
      pub refusing_now : total f (refusing f) w.pairs ≡ refusals
      pub talking : total f (keeping_silent f) w.pairs ≡ 0
      pub closing : w.closed ≡ true → total f (busy f) w.pairs ≡ 0
      pub phase : Phase all refusals w.pairs w.closed w.main

    -- Where one pair becomes another: what is the same of both.
    record Same (p q : Pair f) : Type 0 where
      refusing_same : refusing f p ≡ refusing f q
      silent_same : keeping_silent f p ≡ keeping_silent f q
      held_same : held f p ≡ held f q
      unfinished : (finished f p ≡ 0) × (finished f q ≡ 0)
      fetched : fetching f p ≡ 1

    answered-Same : (a : Answer f) (p : Pair f) → answered f a ≡ some p → Same (asking a) p
    answered-Same (counts c) p e =
        let q : sending c ≡ p = cc in
        rw (← q) (record {
          refusing_same = refl;
          silent_same = refl;
          held_same = refl;
          unfinished = (refl, refl);
          fetched = refl;
        })
    answered-Same refused p e =
        let q : failed ≡ p = cc in
        rw (← q) (record {
          refusing_same = refl;
          silent_same = refl;
          held_same = refl;
          unfinished = (refl, refl);
          fetched = refl;
        })
    answered-Same silent p e = absurd (cc)

    sending-Same : (c : Counts f) → Same (sending c) (forwarding c)
    sending-Same c = record {
      refusing_same = refl;
      silent_same = refl;
      held_same = refl;
      unfinished = (refl, refl);
      fetched = refl;
    }

    total-same :
        (weight : Pair f → ℕ) (before : List (Pair f)) (p q : Pair f) (after : List (Pair f))
        → weight p ≡ weight q
        → total f weight (before ++ (q ∷ after)) ≡ total f weight (before ++ (p ∷ after))
    total-same weight before p q after e =
        omega (arith, total-middle f weight before p after, total-middle f weight before q after)

    pending-same :
        (before : List (Pair f)) (p q : Pair f) (after : List (Pair f))
        → held f p ≡ held f q
        → pending f (before ++ (q ∷ after)) ≡ pending f (before ++ (p ∷ after))
    pending-same before p q after e =
        rw (pending-middle f before q after, pending-middle f before p after, e)

    still_fetching :
        (before : List (Pair f)) (p : Pair f) (after : List (Pair f))
        → fetching f p ≡ 1
        → total f (fetching f) (before ++ (p ∷ after)) ≢ 0
    still_fetching before p after h e = omega (arith, total-middle f (fetching f) before p after)

    fetching-le-busy : (l : List (Pair f)) → total f (fetching f) l ≤ total f (busy f) l
    fetching-le-busy [] = omega arith
    fetching-le-busy (asking a ∷ l) = omega (arith, fetching-le-busy l)
    fetching-le-busy (sending c ∷ l) = omega (arith, fetching-le-busy l)
    fetching-le-busy (failed ∷ l) = omega (arith, fetching-le-busy l)
    fetching-le-busy (forwarding c ∷ l) = omega (arith, fetching-le-busy l)
    fetching-le-busy (done ∷ l) = omega (arith, fetching-le-busy l)

    moved-Phase :
        (before : List (Pair f)) (p q : Pair f) (after : List (Pair f)) (closed : Bool) (m : Main f)
        → Same p q
        → Phase all refusals (before ++ (p ∷ after)) closed m
        → Phase all refusals (before ++ (q ∷ after)) closed m
    moved-Phase before p q after closed waiting s h = (
      pending-same before p q after s.held_same ∙ h.0,
      total-same (finished f) before p q after (s.unfinished.0 ∙ sym s.unfinished.1) ∙ h.1,
    )
    moved-Phase before p q after closed (ranging sum) s h =
        absurd (still_fetching before p after s.fetched h.1)
    moved-Phase before p q after closed (returned none) s h =
        absurd (still_fetching before p after s.fetched h.1)
    moved-Phase before p q after closed (returned (some sum)) s h = absurd (
        still_fetching before p after s.fetched
          (omega (arith, fetching-le-busy (before ++ (p ∷ after)), h.1)))

    moved-Inv :
        (w : World f) (before : List (Pair f)) (p q : Pair f) (after : List (Pair f))
        → w.pairs ≡ before ++ (p ∷ after)
        → Same p q
        → Inv w
        → Inv (record w { pairs = before ++ (q ∷ after) })
    moved-Inv w before p q after e s h = record {
      refusing_now =
          total-same (refusing f) before p q after s.refusing_same ∙ rw e at h.refusing_now;
      talking = total-same (keeping_silent f) before p q after s.silent_same ∙ rw e at h.talking;
      closing = λ c. absurd (
          still_fetching before p after s.fetched
            (omega (arith, fetching-le-busy (before ++ (p ∷ after)), rw e at (h.closing c))));
      phase = moved-Phase before p q after w.closed w.main s (rw e at h.phase);
    }

    -- The counts of one more interceptor arrive.
    arrives :
        (sum : Counts f) (before : List (Pair f)) (c : Counts f) (after : List (Pair f))
        → Arrived all (before ++ (forwarding c ∷ after)) sum
        → Arrived all (before ++ (done ∷ after)) (add_counts f sum c)
    arrives sum before c after a = record {
      arrived = a.arrived ++ (c ∷ []);
      added = ap (λ t. add_counts f t c) a.added ∙ sym (add_all-append [] a.arrived c);
      others =
          Perm.trans
            (rw (pending-middle f before done after, append_assoc)
              (Perm.append_left a.arrived
                (Perm.symm (perm_middle (pending f before) (pending f after)))))
            (rw (pending-middle f before (forwarding c) after) at a.others);
    }

    received-Inv :
        (w : World f) (sum : Counts f) (before : List (Pair f)) (c : Counts f)
        (after : List (Pair f))
        → w.main ≡ ranging sum
        → w.pairs ≡ before ++ (forwarding c ∷ after)
        → Inv w
        → Inv (record w { pairs = before ++ (done ∷ after); main = ranging (add_counts f sum c) })
    received-Inv w sum before c after e k h =
        let phase = rw (k, e) at h.phase in
        record {
          refusing_now =
              total-same (refusing f) before (forwarding c) done after refl
              ∙ rw k at h.refusing_now;
          talking =
              total-same (keeping_silent f) before (forwarding c) done after refl
              ∙ rw k at h.talking;
          closing = λ closed. omega (
            arith,
            total-middle f (busy f) before done after,
            total-middle f (busy f) before (forwarding c) after,
            rw k at (h.closing closed),
          );
          phase = (
            arrives sum before c after phase.0,
            total-same (fetching f) before (forwarding c) done after refl ∙ phase.1,
            phase.2,
          );
        }

    all_fetched-Phase :
        (pairs : List (Pair f)) (closed : Bool)
        → total f (fetching f) pairs ≡ 0
        → refusals ≡ 0
        → Phase all refusals pairs closed waiting
        → Phase all refusals pairs closed (ranging [])
    unfolding add_all
    all_fetched-Phase pairs closed fetched no_error h =
        (record { arrived = []; added = refl; others = rw h.0 (Perm.refl all) }, fetched, no_error)

    closed-Phase :
        (pairs : List (Pair f)) (closed : Bool) (m : Main f)
        → closed ≡ false
        → Phase all refusals pairs closed m
        → Phase all refusals pairs true m
    closed-Phase pairs closed waiting e h = h
    closed-Phase pairs closed (ranging sum) e h = h
    closed-Phase pairs closed (returned none) e h = h
    closed-Phase pairs closed (returned (some sum)) e h = (h.0, h.1, refl, h.3)

    pub Step-Inv : {w v : World f} → Step f w v → Inv w → Inv v
    Step-Inv {w} (answer before a p after e k s) h =
        rw s (moved-Inv w before (asking a) p after e (answered-Same a p k) h)
    Step-Inv {w} (hand_over before c after e s) h =
        rw s (moved-Inv w before (sending c) (forwarding c) after e (sending-Same c) h)
    Step-Inv {w} (receive sum before c after e k s) h =
        rw s (received-Inv w sum before c after e k h)
    Step-Inv {w} (close e k s) h = rw s (record {
      refusing_now = h.refusing_now;
      talking = h.talking;
      closing = λ c. k;
      phase = closed-Phase w.pairs w.closed w.main e h.phase;
    })
    Step-Inv {w} (all_fetched e k l s) h = rw s (record {
      refusing_now = h.refusing_now;
      talking = h.talking;
      closing = h.closing;
      phase =
          all_fetched-Phase w.pairs w.closed k
            (sym h.refusing_now ∙ sym (fetched-failing f w.pairs k) ∙ l) (rw e at h.phase);
    })
    Step-Inv {w} (fetch_failed e k l s) h = rw s (record {
      refusing_now = h.refusing_now;
      talking = h.talking;
      closing = h.closing;
      phase = ((rw e at h.phase).1, k, λ r. l (fetched-failing f w.pairs k ∙ h.refusing_now ∙ r));
    })
    Step-Inv {w} (finish sum e k s) h = rw s (record {
      refusing_now = h.refusing_now;
      talking = h.talking;
      closing = h.closing;
      phase = ((rw e at h.phase).0, h.closing k, k, (rw e at h.phase).2);
    })
