-- ===== src/Routing/Table/Start/Within.antt =====
-- That `Start` of the routing table can return once its context is done.
use http_add_on.Prelude.{ℕ, suc, ◌≡◌, refl, Bool, true, false, Option, some, ◌⊎◌, inl, inr}
use http_add_on.Api.{HttpScaledObject}
use http_add_on.Routing.Radix.{Radix}
use http_add_on.Routing.Memory.{TableMemory}
use http_add_on.Routing.Signaler.{wait, context_done}
use http_add_on.Routing.Table.Refresh
use http_add_on.Routing.Table.Refresh.{Phase, starting, built, waiting}
use http_add_on.Routing.Table.Start.{
  Informer, Refresher, Run, Step, running, informer_returned, syncing, looping, refresher_returned,
  fail, returned, informer_returns, sync_ends, loops, loop_ends,
}
use http_add_on.Process.{Err}

pub Informer-cases : (i : Informer) → (i ≡ running) ⊎ (i ≡ informer_returned)
Informer-cases running = inl refl
Informer-cases informer_returned = inr refl

pub Refresher-cases : (r : Refresher) → (r ≡ syncing) ⊎ ((r ≡ looping) ⊎ (r ≡ refresher_returned))
Refresher-cases syncing = inl refl
Refresher-cases looping = inr (inl refl)
Refresher-cases refresher_returned = inr (inr refl)

Phase-cases :
    (rt : Radix HttpScaledObject) (p : Phase rt)
    → (p ≡ starting) ⊎ (((m : TableMemory rt) × (p ≡ built m)) ⊎ (p ≡ waiting))
Phase-cases rt starting = inl refl
Phase-cases rt (built m) = inr (inl (m, refl))
Phase-cases rt waiting = inr (inr refl)

wait_done : (s : Bool) → wait false s true ≡ (s, context_done)
unfolding wait
wait_done true = refl
wait_done false = refl

module _ (rt : Radix HttpScaledObject) (has_started : Bool) where
  -- `Start` can return within so many more steps.
  pub data Within : ℕ → Run rt → Type 0 where
    now : (n : ℕ) (w : Run rt) (r : Option Err) → returned rt w ≡ some r → Within n w
    after : (n : ℕ) {w v : Run rt} → Step rt has_started w v → Within n v → Within (suc n) w

  later : {n : ℕ} {w : Run rt} → Within n w → Within (suc n) w
  later (now n w r e) = now (suc n) w r e
  later (after n s r) = after (suc n) s (later r)

  both_returned :
      (n : ℕ) (w : Run rt)
      → w.informer ≡ informer_returned
      → w.refresher ≡ refresher_returned
      → Within n w
  unfolding returned
  both_returned n w i r = now n w w.first_error (rw (i, r) refl)

  -- While the group's context is done and the informer has returned, the other function returns.
  abbrev Ending : Run rt → Err → Refresher → Type 0
  Ending w e r = (w.context ≡ some e) × (w.informer ≡ informer_returned) × (w.refresher ≡ r)

  from_waiting : (w : Run rt) (e : Err) → Ending w e looping → w.world.phase ≡ waiting → Within 1 w
  unfolding fail
  from_waiting w e (c, i, r) p =
      after 0
        (loop_ends e false w.world.table.memory_signaler r p c
          (rw c (wait_done w.world.table.memory_signaler)) refl)
        (both_returned 0 _ i refl)

  from_built :
      (w : Run rt) (e : Err) (m : TableMemory rt)
      → Ending w e looping
      → w.world.phase ≡ built m
      → Within 2 w
  from_built w e m h p =
      after 1 (loops _ (h.2) (Refresh.publish m p refl) refl) (from_waiting _ e h refl)

  from_starting :
      (w : Run rt) (e : Err) → Ending w e looping → w.world.phase ≡ starting → Within 3 w
  from_starting w e h p =
      after 2 (loops _ (h.2) (Refresh.build p refl) refl) (from_built _ e _ h refl)

  from_looping : (w : Run rt) (e : Err) → Ending w e looping → Within 3 w
  from_looping w e h = elim (Phase-cases rt w.world.phase) [
    | inl p ↦ from_starting w e h p
    | inr (inl (m, p)) ↦ later (from_built w e m h p)
    | inr (inr p) ↦ later (later (from_waiting w e h p))
  ]

  from_syncing : (w : Run rt) (e : Err) → Ending w e syncing → Within 1 w
  unfolding fail
  from_syncing w e (c, i, r) = after 0 (sync_ends e r c refl) (both_returned 0 _ i refl)

  from_informer :
      (w : Run rt) (e : Err) → w.context ≡ some e → w.informer ≡ informer_returned → Within 3 w
  from_informer w e c i = elim (Refresher-cases w.refresher) [
    | inl r ↦ later (later (from_syncing w e (c, i, r)))
    | inr (inl r) ↦ from_looping w e (c, i, r)
    | inr (inr r) ↦ both_returned 3 w i r
  ]

  pub from_done : (w : Run rt) (e : Err) → w.context ≡ some e → Within 4 w
  unfolding fail
  from_done w e c = elim (Informer-cases w.informer) [
    | inl i ↦ after 3 (informer_returns i refl) (from_informer _ e (rw c refl) refl)
    | inr i ↦ later (from_informer w e c i)
  ]
