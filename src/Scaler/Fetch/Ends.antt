-- ===== src/Scaler/Fetch/Ends.antt =====
-- How a fetch ends, whatever the scheduler does.
use native.Mathlib.Decide.{ℕ_discrete}
use mathlib.Core.List.{Perm, append-nil}
use http_add_on.Prelude.{
  ℕ, zero, suc, ◌+◌, ◌-◌, ◌*◌, ◌≤◌, ◌≡◌, ◌≢◌, ◌⊎◌, inl, inr, refl, ap, ◌∙◌, true, false, Option,
  none, some, List, [], ◌∷◌, length, arith, map, Option-cases, Bool-cases, length-map,
  length-append, ◌>>=◌,
}
use http_add_on.Prelude.Text.{Text}
use http_add_on.Queue.Float.{Float64}
use http_add_on.Scaler.Pinger.{Counts, add_all, get_all}
use http_add_on.Scaler.Fetch.{
  Answer, counts, refused, silent, Pair, asking, sending, failed, forwarding, done, Main, waiting,
  ranging, returned, World, start, total, fetching, busy, Step, answer, hand_over, receive, close,
  all_fetched, fetch_failed, finish, Run, here, next,
}
use http_add_on.Scaler.Fetch.Sums.{
  pending, refusing, keeping_silent, finished, fetched-failing, idle-pending, unfinished-busy,
}
use http_add_on.Scaler.Fetch.Invariant.{Inv, Arrived, Step-Inv, Phase}
use http_add_on.Scaler.Fetch.Cost.{left-start, Run-left, Run-ended}
use http_add_on.Scaler.Fetch.Progress.{CanStep, fetch_step, range_step, close_step, group_step}

module _ (f : Float64) where
  refusing-le-busy : (l : List (Pair f)) → total f (refusing f) l ≤ total f (busy f) l
  refusing-le-busy [] = omega arith
  refusing-le-busy (asking (counts c) ∷ l) = omega (arith, refusing-le-busy l)
  refusing-le-busy (asking refused ∷ l) = omega (arith, refusing-le-busy l)
  refusing-le-busy (asking silent ∷ l) = omega (arith, refusing-le-busy l)
  refusing-le-busy (sending c ∷ l) = omega (arith, refusing-le-busy l)
  refusing-le-busy (failed ∷ l) = omega (arith, refusing-le-busy l)
  refusing-le-busy (forwarding c ∷ l) = omega (arith, refusing-le-busy l)
  refusing-le-busy (done ∷ l) = omega (arith, refusing-le-busy l)

  -- The end of a fetch that has failed: the goroutines that forward are all still there, and so is the
  -- one that closes the channel. And the end of one that has not, with no goroutine left.
  abbrev pub IsEnd : Option (List (Counts f)) → ℕ → World f → Type 0
  IsEnd none n w = (w.main ≡ returned none) × (total f (busy f) w.pairs ≡ n) × (w.closed ≡ false)
  IsEnd (some all) n w =
      (arrived : List (Counts f)) × Perm arrived all
      × (w.main ≡ returned (some (add_all f [] arrived)))
      × (total f (busy f) w.pairs ≡ 0)
      × (w.closed ≡ true)

  -- What all answer, if none refuses.
  abbrev gathered : List (Counts f) → ℕ → Option (List (Counts f))
  gathered all zero = some all
  gathered all (suc n) = none

  still_open :
      (all : List (Counts f)) (refusals : ℕ) (w : World f)
      → Inv f all refusals w
      → refusals ≢ 0
      → w.closed ≡ false
  still_open all refusals w h k = elim (Bool-cases w.closed) [
    | inl c ↦ absurd (omega (arith, h.closing c, refusing-le-busy w.pairs, h.refusing_now, k))
    | inr c ↦ c
  ]

  all_received :
      (all : List (Counts f)) (w : World f) (sum : Counts f)
      → w.main ≡ returned (some sum)
      → Arrived f all w.pairs sum
      → total f (busy f) w.pairs ≡ 0
      → w.closed ≡ true
      → IsEnd (some all) (length w.pairs) w
  all_received all w sum e a idle closed = (
    a.arrived,
    (rw (idle-pending f w.pairs idle, append-nil) at a.others),
    rw (← a.added) e,
    idle,
    closed,
  )

  goes_on :
      (all : List (Counts f)) (refusals : ℕ) (w : World f) (m : Main f)
      → w.main ≡ m
      → Inv f all refusals w
      → Phase f all refusals w.pairs w.closed m
      → CanStep f w ⊎ IsEnd (gathered all refusals) (length w.pairs) w
  goes_on all refusals w waiting e h p = elim (ℕ_discrete (total f (fetching f) w.pairs) 0) [
    | yes fetched ↦ inl (group_step f w e fetched)
    | no more ↦ inl (fetch_step f w more h.talking)
  ]
  goes_on all refusals w (ranging sum) e h p = elim (ℕ_discrete (total f (busy f) w.pairs) 0) [
    | yes idle ↦ inl (close_step f w sum e idle)
    | no some_busy ↦
        inl (
          range_step f w sum e some_busy p.1 (fetched-failing f w.pairs p.1 ∙ h.refusing_now ∙ p.2))
  ]
  goes_on all refusals w (returned none) e h p =
      let k : refusals ≡ suc (refusals - 1) = omega (arith, p.2) in
      inr (rw k (e, unfinished-busy f w.pairs p.0, still_open all refusals w h p.2))
  goes_on all refusals w (returned (some sum)) e h p =
      inr (rw p.3 (all_received all w sum e p.0 p.1 p.2))

  Step-length : {w v : World f} → Step f w v → length v.pairs ≡ length w.pairs
  Step-length {w} (answer before a p after e k s) =
      rw (s, e)
        (omega (arith, length-append before (asking a ∷ after), length-append before (p ∷ after)))
  Step-length {w} (hand_over before c after e s) =
      rw (s, e)
        (omega (
          arith,
          length-append before (sending c ∷ after),
          length-append before (forwarding c ∷ after),
        ))
  Step-length {w} (receive sum before c after e k s) =
      rw (s, k)
        (omega
          (arith, length-append before (forwarding c ∷ after), length-append before (done ∷ after)))
  Step-length {w} (close e k s) = rw s
  Step-length {w} (all_fetched e k l s) = rw s
  Step-length {w} (fetch_failed e k l s) = rw s
  Step-length {w} (finish sum e k s) = rw s

  Run-Inv :
      (all : List (Counts f)) (refusals : ℕ) {s : World f} {k : ℕ} {w : World f}
      → Run f s k w
      → Inv f all refusals s
      → Inv f all refusals w × (length w.pairs ≡ length s.pairs)
  Run-Inv all refusals (here w e) h = rw e (h, refl)
  Run-Inv all refusals (next r t) h =
      let (i, l) = Run-Inv all refusals r h in (Step-Inv f all refusals t i, Step-length t ∙ l)

  abbrev answer_of : Option (Counts f) → Answer f
  answer_of none = refused
  answer_of (some c) = counts c

  -- The answers of the interceptors at these URLs.
  abbrev pub asked : (Text → Option (Counts f)) → List Text → List (Answer f)
  asked get_counts urls = map (λ url. answer_of (get_counts url)) urls

  start_talking :
      (get_counts : Text → Option (Counts f)) (urls : List Text)
      → total f (keeping_silent f) (map asking (asked get_counts urls)) ≡ 0
  start_talking get_counts [] = refl
  start_talking get_counts (url ∷ urls) = elim (Option-cases (get_counts url)) [
    | inl e ↦ rw e (omega (arith, start_talking get_counts urls))
    | inr (c, e) ↦ rw e (omega (arith, start_talking get_counts urls))
  ]

  start_unfinished : (answers : List (Answer f)) → total f (finished f) (map asking answers) ≡ 0
  start_unfinished [] = refl
  start_unfinished (a ∷ answers) = omega (arith, start_unfinished answers)

  gathered-suc : (all : List (Counts f)) (n : ℕ) → gathered all (1 + n) ≡ none
  gathered-suc all n = let e : 1 + n ≡ suc n = omega arith in rw e

  gathered-more :
      (all : List (Counts f)) (c : Counts f) (n : ℕ)
      → gathered (c ∷ all) n ≡ (gathered all n >>= λ rest. some (c ∷ rest))
  gathered-more all c zero = refl
  gathered-more all c (suc n) = refl

  gathered-get_all :
      (get_counts : Text → Option (Counts f)) (urls : List Text)
      → gathered
          (pending f (map asking (asked get_counts urls)))
          (total f (refusing f) (map asking (asked get_counts urls)))
        ≡ get_all f get_counts urls
  unfolding get_all
  gathered-get_all get_counts [] = refl
  gathered-get_all get_counts (url ∷ urls) = elim (Option-cases (get_counts url)) [
    | inl e ↦ rw e (gathered-suc _ _)
    | inr (c, e) ↦
        let pairs = map asking (asked get_counts urls) in
        let same : 0 + total f (refusing f) pairs ≡ total f (refusing f) pairs = omega arith in
        rw (e, same)
          (gathered-more (pending f pairs) c (total f (refusing f) pairs)
            ∙ ap (λ (o : Option (List (Counts f))). o >>= λ rest. some (c ∷ rest))
                (gathered-get_all get_counts urls))
  ]

  start-Inv :
      (get_counts : Text → Option (Counts f)) (url : Text) (urls : List Text)
      → let s = start f (asked get_counts (url ∷ urls)) in
        Inv f (pending f s.pairs) (total f (refusing f) s.pairs) s
  unfolding start
  start-Inv get_counts url urls = record {
    refusing_now = refl;
    talking = start_talking get_counts (url ∷ urls);
    closing = λ c. cc;
    phase = (refl, start_unfinished (asked get_counts (url ∷ urls)));
  }

  -- How a fetch from the interceptors at these URLs has ended. With none of them it is an error, and
  -- no goroutine was started.
  abbrev pub HasEnded : (Text → Option (Counts f)) → List Text → World f → Type 0
  HasEnded get_counts [] w = (w.main ≡ returned none) × (w.pairs ≡ [])
  HasEnded get_counts (url ∷ urls) w =
      IsEnd (get_all f get_counts (url ∷ urls)) (length (url ∷ urls)) w

  goes_on_or_ended :
      (get_counts : Text → Option (Counts f)) (urls : List Text) {k : ℕ} {w : World f}
      → Run f (start f (asked get_counts urls)) k w
      → CanStep f w ⊎ HasEnded get_counts urls w
  unfolding start
  goes_on_or_ended get_counts [] r = let e = Run-ended f r refl in inr (rw e (refl, refl))
  goes_on_or_ended get_counts (url ∷ urls) {w = w} r =
      let pairs = map asking (asked get_counts (url ∷ urls)) in
      let (i, l) =
        Run-Inv (pending f pairs) (total f (refusing f) pairs) r (start-Inv get_counts url urls) in
      let size : length w.pairs ≡ length (url ∷ urls) =
        l ∙ length-map (asked get_counts (url ∷ urls)) asking ∙ length-map (url ∷ urls) _ in
      rw (← gathered-get_all get_counts (url ∷ urls), ← size)
        (goes_on (pending f pairs) (total f (refusing f) pairs) w w.main refl i i.phase)

  -- When every interceptor answers, with counts or with an error: whatever the order in which the
  -- goroutines go on, they make at most three steps for each interceptor and three more; and after any
  -- steps either another can be made, or the fetch has ended. It has then returned all counts added up,
  -- in the order in which they arrived, with no goroutine left; but if an interceptor gave an error,
  -- it has returned that, and for each interceptor a goroutine waits for ever, and so does the one
  -- that closes the channel. With no interceptor it has returned an error and started no goroutine.
  pub fetch_counts_ends :
      (get_counts : Text → Option (Counts f)) (urls : List Text) {k : ℕ} {w : World f}
      → Run f (start f (asked get_counts urls)) k w
      → (k ≤ 3 * length urls + 3) × (((v : World f) × Step f w v) ⊎ HasEnded get_counts urls w)
  fetch_counts_ends get_counts urls r = (
    omega (
      arith,
      Run-left f r,
      left-start f (asked get_counts urls),
      length-map urls (λ url. answer_of (get_counts url)),
    ),
    goes_on_or_ended get_counts urls r,
  )
