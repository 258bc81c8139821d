-- ===== src/Routing/Table/Refresh.antt =====
-- The event handlers and the loop of `refreshMemory` run concurrently. A handler's write and its
-- signal are two steps, and so are the building of a memory and its publication.
use http_add_on.Prelude.{ℕ, suc, ap, ◌≡◌, ◌≢◌, refl, Bool, true, false, some, ◌⊎◌, inl, inr, arith}
use http_add_on.Api.{HttpScaledObject}
use http_add_on.Queue.Memory
use http_add_on.Routing.Key.{Request, new_key_from_request}
use http_add_on.Routing.Radix.{Radix}
use http_add_on.Routing.Memory.{TableMemory}
use http_add_on.Routing.Memory.Route.{IsRouted, route-IsRouted}
use http_add_on.Routing.Signaler.{wait, signaled}
use http_add_on.Routing.Table.{
  Table, new_table, raise, add_write, update_write, delete_write, new_memory_from_httpsos,
  set_memory, table_route, values,
}

module _ (rt : Radix HttpScaledObject) where
  -- Where the loop stands: about to build, with a memory that it is about to publish, or waiting.
  pub data Phase : Type 0 where
    starting : Phase
    built : TableMemory rt → Phase
    waiting : Phase

  -- `unsignaled` counts the handlers that have written and not signaled yet.
  pub record World : Type 0 where
    pub table : Table rt
    pub unsignaled : ℕ
    pub phase : Phase

  unfoldable pub start : Memory.Memory → World
  start counter = record { table = new_table rt counter; unsignaled = 0; phase = starting }

  pub data Step (w v : World) : Type 0 where
    added :
        (h : HttpScaledObject) (u : Table rt)
        → add_write rt w.table h ≡ some u
        → v ≡ record w { table = u; unsignaled = suc w.unsignaled }
        → Step w v
    updated :
        (old new : HttpScaledObject) (u : Table rt)
        → update_write rt w.table old new ≡ some u
        → v ≡ record w { table = u; unsignaled = suc w.unsignaled }
        → Step w v
    deleted :
        (h : HttpScaledObject)
        → v ≡ record w { table = delete_write rt w.table h; unsignaled = suc w.unsignaled }
        → Step w v
    raised :
        (n : ℕ)
        → w.unsignaled ≡ suc n
        → v ≡ record w { table = raise rt w.table; unsignaled = n }
        → Step w v
    build :
        w.phase ≡ starting
        → v ≡ record w { phase = built (new_memory_from_httpsos rt w.table) }
        → Step w v
    publish :
        (m : TableMemory rt)
        → w.phase ≡ built m
        → v ≡ record w { table = set_memory rt w.table m; phase = waiting }
        → Step w v
    wake :
        (left : Bool)
        → w.phase ≡ waiting
        → wait true w.table.memory_signaler false ≡ (left, signaled)
        → v ≡ record w { table = record w.table { memory_signaler = left }; phase = starting }
        → Step w v

  pub data Reach (counter : Memory.Memory) : World → Type 0 where
    here : (w : World) → w ≡ start counter → Reach counter w
    next : {w v : World} → Reach counter w → Step w v → Reach counter v

  -- A write that the memory lacks is announced, or will be.
  abbrev Announced : World → Type 0
  Announced w = (w.table.memory_signaler ≡ true) ⊎ (w.unsignaled ≢ 0)

  abbrev Fresh : World → Phase → Type 0
  Fresh w starting = Unit
  Fresh w (built m) = Announced w ⊎ (m ≡ new_memory_from_httpsos rt w.table)
  Fresh w waiting =
      Announced w ⊎ (w.table.memory_holder ≡ some (new_memory_from_httpsos rt w.table))

  Announced-Fresh : (w : World) (p : Phase) → Announced w → Fresh w p
  Announced-Fresh w starting a = tt
  Announced-Fresh w (built m) a = inl a
  Announced-Fresh w waiting a = inl a

  publish-Fresh :
      (w : World) (m : TableMemory rt)
      → Fresh w (built m)
      → Fresh (record w { table = set_memory rt w.table m; phase = waiting }) waiting
  unfolding set_memory new_memory_from_httpsos
  publish-Fresh w m (inl a) = inl a
  publish-Fresh w m (inr e) = inr (ap some e)

  raise_signals : (t : Table rt) → (raise rt t).memory_signaler ≡ true
  unfolding raise
  raise_signals t = refl

  Step-Fresh : {w v : World} → Step w v → Fresh w w.phase → Fresh v v.phase
  Step-Fresh {w} (added h u e s) f = rw s (
      Announced-Fresh (record w { table = u; unsignaled = suc w.unsignaled }) w.phase
        (inr (λ z. omega arith)))
  Step-Fresh {w} (updated o n u e s) f = rw s (
      Announced-Fresh (record w { table = u; unsignaled = suc w.unsignaled }) w.phase
        (inr (λ z. omega arith)))
  Step-Fresh {w} (deleted h s) f = rw s (
      Announced-Fresh
        (record w { table = delete_write rt w.table h; unsignaled = suc w.unsignaled }) w.phase
        (inr (λ z. omega arith)))
  Step-Fresh {w} (raised n e s) f = rw s (
      Announced-Fresh (record w { table = raise rt w.table; unsignaled = n }) w.phase
        (inl (raise_signals w.table)))
  Step-Fresh {w} (build p s) f = rw s (inr refl)
  Step-Fresh {w} (publish m p s) f = rw s (publish-Fresh w m (rw p at f))
  Step-Fresh {w} (wake l p e s) f = rw s tt

  Reach-Fresh : {counter : Memory.Memory} {w : World} → Reach counter w → Fresh w w.phase
  unfolding start
  Reach-Fresh (here w e) = rw e tt
  Reach-Fresh (next r s) = Step-Fresh s (Reach-Fresh r)

  -- A table whose memory is the one built from its objects.
  settled :
      (w : World) (req : Request)
      → Fresh w waiting
      → w.unsignaled ≡ 0
      → w.table.memory_signaler ≡ false
      → IsRouted
          (values w.table.http_scaled_objects)
          (new_key_from_request (some req))
          (table_route rt w.table (some req))
  unfolding table_route new_memory_from_httpsos
  settled w req (inl (inl a)) u s = absurd (cc)
  settled w req (inl (inr a)) u s = absurd (a u)
  settled w req (inr e) u s =
      rw e
        (route-IsRouted rt (values w.table.http_scaled_objects) (new_key_from_request (some req)))

  -- In every interleaving: once the loop waits, no signal is pending and no handler stands between
  -- its write and its signal, the published memory routes every request by the objects that the
  -- table holds. No update is lost.
  pub quiescent_routes :
      {counter : Memory.Memory} {w : World} (req : Request)
      → Reach counter w
      → w.phase ≡ waiting
      → w.unsignaled ≡ 0
      → w.table.memory_signaler ≡ false
      → IsRouted
          (values w.table.http_scaled_objects)
          (new_key_from_request (some req))
          (table_route rt w.table (some req))
  quiescent_routes {w} req r p u s = settled w req (rw p at (Reach-Fresh r)) u s
