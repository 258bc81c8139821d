-- ===== src/Routing/Table/Synced.antt =====
-- When the table has synced: its memory has been published once.
use http_add_on.Prelude.{◌≡◌, refl, Bool, true}
use http_add_on.Prelude.Returns.{Ensures, Ensures_any, Ensures-bind, Ensures-eq}
use http_add_on.Api.{HttpScaledObject, to_string}
use http_add_on.Queue.Memory
use http_add_on.Routing.Radix.{Radix}
use http_add_on.Routing.Memory.{TableMemory}
use http_add_on.Routing.Table.{
  Table, raise, add_write, update_write, delete_write, set_memory, has_synced, windows,
}
use http_add_on.Routing.Table.Refresh.{
  World, Phase, starting, built, waiting, Reach, Step, start, here, next, added, updated, deleted,
  raised, build, publish, wake,
}

module _ (rt : Radix HttpScaledObject) where
  add_write-has_synced :
      (t : Table rt) (h : HttpScaledObject)
      → Ensures (add_write rt t h) (λ u. has_synced rt u ≡ has_synced rt t)
  unfolding add_write has_synced
  add_write-has_synced t h =
      Ensures-bind (Memory.ensure_key t.queue_counter (to_string h.key) (windows h).0 (windows h).1)
        _ (λ m. Unit {0}) (λ u. has_synced rt u ≡ has_synced rt t) (Ensures_any _) (λ m x. refl)

  update_write-has_synced :
      (t : Table rt) (old new : HttpScaledObject)
      → Ensures (update_write rt t old new) (λ u. has_synced rt u ≡ has_synced rt t)
  unfolding update_write has_synced
  update_write-has_synced t old new =
      Ensures-bind
        (Memory.update_buckets t.queue_counter (to_string new.key) (windows new).0 (windows new).1)
        _ (λ m. Unit {0}) (λ u. has_synced rt u ≡ has_synced rt t) (Ensures_any _) (λ m x. refl)

  -- A handler changes nothing of what is published.
  delete_write-has_synced :
      (t : Table rt) (h : HttpScaledObject) → has_synced rt (delete_write rt t h) ≡ has_synced rt t
  unfolding delete_write has_synced
  delete_write-has_synced t h = refl

  raise-has_synced : (t : Table rt) → has_synced rt (raise rt t) ≡ has_synced rt t
  unfolding raise has_synced
  raise-has_synced t = refl

  set_memory-has_synced :
      (t : Table rt) (m : TableMemory rt) → has_synced rt (set_memory rt t m) ≡ true
  unfolding set_memory has_synced
  set_memory-has_synced t m = refl

  -- Whether a loop at this point has published before.
  abbrev Published : Bool → Phase rt → Type 0
  Published synced starting = Unit
  Published synced (built m) = Unit
  Published synced waiting = synced ≡ true

  Step-Published :
      {w v : World rt}
      → Step rt w v
      → Published (has_synced rt w.table) w.phase
      → Published (has_synced rt v.table) v.phase
  Step-Published {w} (added h u e s) p =
      rw (s, Ensures-eq (add_write rt w.table h) _ u (add_write-has_synced w.table h) e) p
  Step-Published {w} (updated old new u e s) p =
      rw
        (
          s,
          Ensures-eq (update_write rt w.table old new) _ u (update_write-has_synced w.table old new)
              e,
        )
        p
  Step-Published {w} (deleted h s) p = rw (s, delete_write-has_synced w.table h) p
  Step-Published {w} (raised n e s) p = rw (s, raise-has_synced w.table) p
  Step-Published {w} (build q s) p = rw s tt
  Step-Published {w} (publish m q s) p = rw s (set_memory-has_synced w.table m)
  Step-Published {w} (wake l q e s) p = rw s tt

  pub Reach-Published :
      {counter : Memory.Memory} {w : World rt}
      → Reach rt counter w
      → Published (has_synced rt w.table) w.phase
  unfolding start
  Reach-Published (here w e) = rw e tt
  Reach-Published (next r s) = Step-Published s (Reach-Published r)

  -- Every step leaves that as it is, or publishes.
  Step-has_synced :
      {w v : World rt} → Step rt w v → has_synced rt w.table ≡ true → has_synced rt v.table ≡ true
  unfolding has_synced
  Step-has_synced {w} (added h u e s) p =
      rw (s, Ensures-eq (add_write rt w.table h) _ u (add_write-has_synced w.table h) e) p
  Step-has_synced {w} (updated old new u e s) p =
      rw
        (
          s,
          Ensures-eq (update_write rt w.table old new) _ u (update_write-has_synced w.table old new)
              e,
        )
        p
  Step-has_synced {w} (deleted h s) p = rw (s, delete_write-has_synced w.table h) p
  Step-has_synced {w} (raised n e s) p = rw (s, raise-has_synced w.table) p
  Step-has_synced {w} (build q s) p = rw s p
  Step-has_synced {w} (publish m q s) p = rw s (set_memory-has_synced w.table m)
  Step-has_synced {w} (wake l q e s) p = rw s p
