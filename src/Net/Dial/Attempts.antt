-- ===== src/Net/Dial/Attempts.antt =====
-- How many dials are tried, and how long the sleeps between them are.
use native.Mathlib.Nat.{
  zero-add, add-zero, suc-add, two-pow-succ, mul-le-mul_left, mul-le-mul_right,
}
use mathlib.Core.List.{append-nil}
use http_add_on.Prelude.{
  ℕ, zero, suc, ◌+◌, ◌*◌, ◌/◌, ◌-◌, ◌%◌, ◌^◌, ◌≤◌, ◌<◌, ◌≡◌, refl, ap, ◌∙◌, Bool, false, Option,
  none, some, List, [], ◌∷◌, ◌++◌, arith,
}
use http_add_on.Prelude.Word.{word_mod}
use http_add_on.Queue.Time.{millisecond}
use http_add_on.Net.Backoff.{Backoff, add_steps, min_total_backoff_duration}
use http_add_on.Net.Dial.{
  Attempt, connects, fails, Dialed, connected, last_error, dial_loop, dial_context_with_retry,
}

unfoldable pub sum : List ℕ → ℕ
sum [] = 0
sum (x ∷ l) = x + sum l

-- The first sleeps, from the attempt `i` on.
unfoldable pub sleeps : (ℕ → ℕ) → ℕ → ℕ → List ℕ
sleeps sleep zero i = []
sleeps sleep (suc k) i = sleep i ∷ sleeps sleep k (suc i)

abbrev pub after_sleeps :
    {Conn Error : Type 0} → List ℕ → Dialed Conn Error × List ℕ → Dialed Conn Error × List ℕ
after_sleeps l (result, rest) = (result, l ++ rest)

module _ {Conn Error : Type 0} (dial : ℕ → Attempt Conn Error) (sleep : ℕ → ℕ)
    (timed_out : ℕ → Bool) where
  -- The attempt fails, and the context lasts through the sleep after it.
  abbrev pub Missed : ℕ → Type 0
  Missed i = ((err : Error) × (dial i ≡ fails err)) × (timed_out i ≡ false)

  -- The error after `k` such attempts from `i` on: that of the last of them.
  abbrev pub Last : ℕ → ℕ → Option Error → Option Error → Type 0
  Last i zero err err' = err' ≡ err
  Last i (suc k) err err' = (e : Error) × (dial (i + k) ≡ fails e) × (err' ≡ some e)

  Last-shift :
      (k i : ℕ) (e : Error) (err err' : Option Error)
      → dial i ≡ fails e
      → Last (suc i) k (some e) err'
      → Last i (suc k) err err'
  Last-shift zero i e err err' d h = (e, rw (add-zero i) d, h)
  Last-shift (suc k) i e err err' d (e', d', h) =
      let shift : suc i + k ≡ i + suc k = omega arith in (e', rw shift at d', h)

  dial_loop-Missed :
      (k rounds i : ℕ) (err : Option Error)
      → ((j : ℕ) → j < k → Missed (i + j))
      → (err' : Option Error) × Last i k err err'
        × (dial_loop dial sleep timed_out (k + rounds) i err
            ≡ after_sleeps (sleeps sleep k i) (dial_loop dial sleep timed_out rounds (i + k) err'))
  unfolding dial_loop sleeps
  dial_loop-Missed zero rounds i err h = (err, refl, rw (zero-add rounds, add-zero i) refl)
  dial_loop-Missed (suc k) rounds i err h =
      let ((e, failed), in_time) = h 0 (omega arith) in
      let next : (j : ℕ) → j < k → Missed (suc i + j) = λ j c.
        let shift : i + suc j ≡ suc i + j = omega arith in rw shift at (h (suc j) (omega arith)) in
      let (e', final, ih) = dial_loop-Missed k rounds (suc i) (some e) next in
      let ends : i + suc k ≡ suc i + k = omega arith in
      let failed' : dial i ≡ fails e = rw (add-zero i) at failed in
      let in_time' : timed_out i ≡ false = rw (add-zero i) at in_time in
      (
        e',
        Last-shift k i e err e' failed' final,
        rw (suc-add k rounds, failed', in_time', ends, ih) refl,
      )

  -- While the first `k` dials fail and the context lasts, and there are more steps than that: a dial
  -- that connects then ends the tries with its connection, after exactly the first `k` sleeps.
  dial_context_with_retry-connects :
      (steps k : ℕ) (conn : Conn)
      → k < steps
      → ((j : ℕ) → j < k → Missed j)
      → dial k ≡ connects conn
      → dial_context_with_retry dial sleep timed_out steps ≡ (connected conn, sleeps sleep k 0)
  unfolding dial_context_with_retry dial_loop
  dial_context_with_retry-connects steps k conn small h c =
      let (e, final, missed) =
        dial_loop-Missed k (suc (steps - k - 1)) 0 none (λ j b. rw (zero-add j) (h j b)) in
      let all : k + suc (steps - k - 1) ≡ steps = omega arith in
      rw (all, zero-add k, c, append-nil (sleeps sleep k 0)) at missed

  -- When every dial fails and the context lasts, there are as many dials as steps, and after each
  -- the sleep that belongs to it, the last included; the result is no connection with the error of
  -- the last dial.
  pub dial_context_with_retry-fails :
      (n : ℕ)
      → ((j : ℕ) → j < suc n → Missed j)
      → (err : Error) × (dial n ≡ fails err)
        × (dial_context_with_retry dial sleep timed_out (suc n)
            ≡ (last_error (some err), sleeps sleep (suc n) 0))
  unfolding dial_context_with_retry dial_loop
  dial_context_with_retry-fails n h =
      let (e, (err, failed, same), missed) =
        dial_loop-Missed (suc n) 0 0 none (λ j b. rw (zero-add j) (h j b)) in
      (
        err,
        rw (zero-add n) at failed,
        rw (add-zero (suc n), append-nil (sleeps sleep (suc n) 0), same) at missed,
      )

-- The numbers `i`, `i + 1`, … of so many rounds, added up.
abbrev total : ℕ → ℕ → ℕ
total zero i = 0
total (suc rounds) i = i + total rounds (suc i)

add_steps_bound :
    (rounds i initial ret : ℕ) → add_steps rounds i initial ret ≤ ret + initial * total rounds i
unfolding add_steps
add_steps_bound zero i initial ret = grind arith
add_steps_bound (suc rounds) i initial ret =
    let ih = add_steps_bound rounds (suc i) initial ((ret + initial * i) % word_mod) in
    let split : initial * (i + total rounds (suc i))
        ≡ initial * i + initial * total rounds (suc i) =
      grind arith in
    omega (arith, ih, split)

power_bound : (j : ℕ) → suc j ≤ 2 ^ j
power_bound zero = omega arith
power_bound (suc j) = omega (arith, power_bound j, two-pow-succ j)

sleeps_bound :
    (d : ℕ) (sleep : ℕ → ℕ) (rounds i : ℕ)
    → ((j : ℕ) → d * 2 ^ j ≤ sleep j)
    → d * total rounds (suc i) ≤ sum (sleeps sleep rounds i)
unfolding sum sleeps
sleeps_bound d sleep zero i h = grind arith
sleeps_bound d sleep (suc rounds) i h =
    let ih = sleeps_bound d sleep rounds (suc i) h in
    let first : d * suc i ≤ d * 2 ^ i = mul-le-mul_left d (power_bound i) in
    let split : d * (suc i + total rounds (suc (suc i)))
        ≡ d * suc i + d * total rounds (suc (suc i)) =
      grind arith in
    omega (arith, ih, first, split, h i)

min_total_bound :
    (b : Backoff) (n : ℕ)
    → b.steps ≡ suc n
    → min_total_backoff_duration b ≤ b.duration * total (suc n) 1
unfolding min_total_backoff_duration
min_total_bound b n e =
    let initial = b.duration / millisecond in
    let rounds : b.steps - 1 ≡ n = omega arith in
    let steps = add_steps_bound n 2 initial initial in
    let whole : (initial + initial * total n 2) * millisecond
        ≡ (initial * millisecond) * (1 + total n 2) =
      grind arith in
    let less : (initial * millisecond) * (1 + total n 2) ≤ b.duration * (1 + total n 2) =
      mul-le-mul_right (1 + total n 2) (omega arith) in
    rw rounds (omega (arith, steps, whole, less))

-- Where the sleep after each dial is at least the duration of the backoff doubled as often as there
-- were dials before: while the context lasts, tries that all fail sleep for at least
-- `MinTotalBackoffDuration`, if there is a step at all.
pub min_total_backoff_duration-dial_context_with_retry :
    {Conn Error : Type 0} (dial : ℕ → Attempt Conn Error) (sleep : ℕ → ℕ) (timed_out : ℕ → Bool)
    (b : Backoff) (n : ℕ)
    → b.steps ≡ suc n
    → ((j : ℕ) → b.duration * 2 ^ j ≤ sleep j)
    → ((j : ℕ) → j < suc n → Missed dial sleep timed_out j)
    → min_total_backoff_duration b ≤ sum (dial_context_with_retry dial sleep timed_out b.steps).1
min_total_backoff_duration-dial_context_with_retry dial sleep timed_out b n e h missed =
    let (err, failed, result) = dial_context_with_retry-fails dial sleep timed_out n missed in
    let slept : sum (dial_context_with_retry dial sleep timed_out b.steps).1
        ≡ sum (sleeps sleep (suc n) 0) =
      ap (λ k. sum (dial_context_with_retry dial sleep timed_out k).1) e
      ∙ ap (λ r. sum r.1) result in
    omega (arith, min_total_bound b n e, sleeps_bound b.duration sleep (suc n) 0 h, slept)
