-- ===== src/Routing/Table/Start/Returns.antt =====
-- What `Start` of the routing table returns.
use http_add_on.Prelude.{
  ◌≡◌, refl, ap, Bool, true, false, Bool-cases, Option, none, some, ◌⊎◌, inl, inr, if◌then◌else◌,
}
use http_add_on.Api.{HttpScaledObject}
use http_add_on.Queue.Memory
use http_add_on.Routing.Radix.{Radix}
use http_add_on.Routing.Table.Start.{
  Informer, Refresher, Run, Step, Reach, running, informer_returned, looping, refresher_returned,
  start, fail, cancel, run_informer, or_first, err_started_shared_index_informer,
  err_stopped_shared_index_informer, returned, here, next, cancels, handles, informer_returns,
  has_synced, sync_ends, loops, loop_ends,
}
use http_add_on.Process.{Err, canceled, is_ignored_err, is_any}
use http_add_on.Process.Interceptor
use http_add_on.Routing.Table.Start.Within.{Informer-cases, Refresher-cases, Within, from_done}

abbrev pub own_error : Bool → Err
own_error has_started =
    if has_started then err_started_shared_index_informer else err_stopped_shared_index_informer

run_informer_cause :
    (b : Bool) (c : Option Err) → (run_informer b c ≡ own_error b) ⊎ (c ≡ some (run_informer b c))
unfolding run_informer
run_informer_cause true c = inl refl
run_informer_cause false none = inl refl
run_informer_cause false (some e) = inr refl

own_error-returns :
    (b : Bool)
    → Interceptor.returns Interceptor.routing_table (some (own_error b)) ≡ some (own_error b)
unfolding is_ignored_err is_any
own_error-returns true = refl
own_error-returns false = refl

module _ (rt : Radix HttpScaledObject) (has_started : Bool) where
  -- The informer's own error, or a cancellation from outside.
  abbrev Caused : Err → Bool → Type 0
  Caused e parent = (e ≡ own_error has_started) ⊎ ((e ≡ canceled) × (parent ≡ true))

  -- The same, with what the interceptor's main makes of it: an error of its group, or none.
  abbrev pub Reported : Err → Bool → Type 0
  Reported e parent =
      ((e ≡ own_error has_started)
        × (Interceptor.returns Interceptor.routing_table (some e) ≡ some e))
      ⊎ ((e ≡ canceled)
          × (parent ≡ true)
          × (Interceptor.returns Interceptor.routing_table (some e) ≡ none))

  Caused-Reported : (e : Err) (parent : Bool) → Caused e parent → Reported e parent
  unfolding is_ignored_err is_any
  Caused-Reported e parent (inl own) = inl (own, rw own (own_error-returns has_started))
  Caused-Reported e parent (inr (c, p)) = inr (c, p, rw c refl)

  -- The group's context is done once one of its functions has returned, or the parent's is.
  abbrev Sound : Option Err → Option Err → Bool → Informer → Refresher → Type 0
  Sound none none parent i r = (parent ≡ false) × (i ≡ running) × ¬ (r ≡ refresher_returned)
  Sound none (some e) parent i r = true ≡ false
  Sound (some c) none parent i r =
      (c ≡ canceled) × (parent ≡ true) × (i ≡ running) × ¬ (r ≡ refresher_returned)
  Sound (some c) (some e) parent i r = (c ≡ canceled) × Caused e parent

  abbrev pub IsSound : Run rt → Type 0
  IsSound w = Sound w.context w.first_error w.parent_done w.informer w.refresher

  cancel-Sound :
      (c f : Option Err) (p : Bool) (i : Informer) (r : Refresher)
      → Sound c f p i r
      → Sound (or_first c canceled) f true i r
  cancel-Sound none none p i r s = (refl, refl, s.1, s.2)
  cancel-Sound none (some e) p i r s = absurd (cc)
  cancel-Sound (some c) none p i r s = (s.0, refl, s.2, s.3)
  cancel-Sound (some c) (some e) p i r (s, inl own) = (s, inl own)
  cancel-Sound (some c) (some e) p i r (s, inr (d, q)) = (s, inr (d, refl))

  fail-Sound :
      (c f : Option Err) (p : Bool) (i j : Informer) (r q : Refresher) (e : Err)
      → Sound c f p i r
      → (e ≡ own_error has_started) ⊎ (c ≡ some e)
      → Sound (or_first c canceled) (or_first f e) p j q
  fail-Sound none none p i j r q e s (inl own) = (refl, inl own)
  fail-Sound none none p i j r q e s (inr d) = absurd (cc)
  fail-Sound none (some g) p i j r q e s h = absurd (cc)
  fail-Sound (some c) none p i j r q e s (inl own) = (s.0, inl own)
  fail-Sound (some c) none p i j r q e s (inr d) = (s.0, inr (cc, s.1))
  fail-Sound (some c) (some g) p i j r q e s h = s

  sync-Sound :
      (c f : Option Err) (p : Bool) (i : Informer) (r : Refresher)
      → Sound c f p i r
      → Sound c f p i looping
  sync-Sound none none p i r s = (s.0, s.1, λ h. cc)
  sync-Sound none (some e) p i r s = s
  sync-Sound (some c) none p i r s = (s.0, s.1, s.2, λ h. cc)
  sync-Sound (some c) (some e) p i r s = s

  Step-IsSound : {w v : Run rt} → Step rt has_started w v → IsSound w → IsSound v
  unfolding fail cancel
  Step-IsSound {w} (cancels e) s =
      rw e (cancel-Sound w.context w.first_error w.parent_done w.informer w.refresher s)
  Step-IsSound {w} (handles u h i t p e) s = rw e s
  Step-IsSound {w} (informer_returns i e) s = rw e (
      fail-Sound w.context w.first_error w.parent_done w.informer _ w.refresher _
        (run_informer has_started w.context) s (run_informer_cause has_started w.context))
  Step-IsSound {w} (has_synced r e) s =
      rw e (sync-Sound w.context w.first_error w.parent_done w.informer w.refresher s)
  Step-IsSound {w} (sync_ends err r c e) s =
      rw e
        (fail-Sound w.context w.first_error w.parent_done w.informer _ w.refresher _ err s (inr c))
  Step-IsSound {w} (loops u r t e) s = rw e s
  Step-IsSound {w} (loop_ends err b left r p c l e) s =
      rw e
        (fail-Sound w.context w.first_error w.parent_done w.informer _ w.refresher _ err s (inr c))

  Reach-IsSound :
      {counter : Memory.Memory} {add_error : Option Err} {w : Run rt}
      → Reach rt has_started counter add_error w
      → IsSound w
  unfolding start
  Reach-IsSound (here t e) = (refl, refl, λ r. cc)
  Reach-IsSound (next r s) = Step-IsSound s (Reach-IsSound r)

  when_returned :
      (c f : Option Err) (p : Bool) (i : Informer) (r : Refresher)
      → Sound c f p i r
      → i ≡ informer_returned
      → (e : Err) × (f ≡ some e) × Caused e p
  when_returned none none p i r s h = absurd (cc)
  when_returned none (some e) p i r s h = absurd (cc)
  when_returned (some c) none p i r s h = absurd (cc)
  when_returned (some c) (some e) p i r s h = (e, refl, s.1)

  -- What `Wait` has returned is an error.
  returned_error :
      (w : Run rt)
      → IsSound w
      → (returned rt w ≡ none)
        ⊎ ((e : Err) × (returned rt w ≡ some (some e)) × Reported e w.parent_done)
  unfolding returned
  returned_error w s = elim (Informer-cases w.informer) [
    | inl i ↦ inl (rw i refl)
    | inr i ↦ elim (Refresher-cases w.refresher) [
      | inl q ↦ inl (rw (i, q) refl)
      | inr (inl q) ↦ inl (rw (i, q) refl)
      | inr (inr q) ↦
          let (e, f, caused) =
            when_returned w.context w.first_error w.parent_done w.informer w.refresher s i in
          inr (e, rw (i, q) (ap some f), Caused-Reported e w.parent_done caused)
    ]
  ]

  parent_cancels :
      (c f : Option Err) (i : Informer) (r : Refresher)
      → Sound c f true i r
      → (e : Err) × (c ≡ some e)
  parent_cancels none none i r s = absurd (cc)
  parent_cancels none (some e) i r s = absurd (cc)
  parent_cancels (some c) f i r s = (c, refl)

  -- In every interleaving of the event handlers, the refresh loop, the informer and the end of the
  -- context, from a table that NewTable gives: Start has not returned, or it has returned an error,
  -- which is the informer's own, of one that had started before or has stopped, and ends the
  -- interceptor's group with that error; or it is a cancellation, which the main ignores, and then
  -- the context that Start was given is done. And either that context is not done, or Start can
  -- return within four more steps, wherever its functions stand.
  pub start_returns :
      {counter : Memory.Memory} {add_error : Option Err} {w : Run rt}
      → Reach rt has_started counter add_error w
      → ((returned rt w ≡ none)
          ⊎ ((e : Err) × (returned rt w ≡ some (some e)) × Reported e w.parent_done))
        × ((w.parent_done ≡ false) ⊎ Within rt has_started 4 w)
  start_returns {w = w} reach =
      let s = Reach-IsSound reach in
      (
        returned_error w s,
        elim (Bool-cases w.parent_done) [
          | inl p ↦
              let (e, c) =
                parent_cancels w.context w.first_error w.informer w.refresher (rw p at s) in
              inr (from_done rt has_started w e c)
          | inr p ↦ inl p
        ],
      )
