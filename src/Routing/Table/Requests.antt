-- ===== src/Routing/Table/Requests.antt =====
-- A request that the table routes can be counted.
use http_add_on.Prelude.{ℕ, ◌≡◌, refl, ◌∙◌, Bool, true, false, not, Option, some, List}
use http_add_on.Prelude.Text.{Text}
use http_add_on.Prelude.Dict.{Dict, insert, text_Eq}
use http_add_on.Prelude.Returns.{Returns, Returns-bind, Ensures, Ensures-eq, Ensures-bind}
use http_add_on.Api.{HttpScaledObject, NamespacedName, to_string}
use http_add_on.Queue.Memory.{Memory, increase, ensure_key, update_buckets}
use http_add_on.Queue.Memory.Sound.{IsSound, increase_total}
use http_add_on.Routing.Key.{Request, new_key_from_request}
use http_add_on.Routing.Radix.{Radix}
use http_add_on.Routing.Memory.{name_eq}
use http_add_on.Routing.Memory.Oldest.{In}
use http_add_on.Routing.Memory.Route.{IsRouted}
use http_add_on.Routing.Table.{
  Table, new_table, name_Eq, raise, add_write, update_write, delete_write, drop_old, windows,
  set_memory, table_route, values,
}
use http_add_on.Routing.Table.Refresh.{
  World, Reach, Step, start, here, next, added, updated, deleted, raised, build, publish, wake,
  waiting, quiescent_routes,
}
use http_add_on.Routing.Table.Counted.{
  Plain, Has, Keeps, ensure_key-Keeps, update_buckets-Keeps, AllCounted, AllCounted-mono,
  insert-AllCounted, remove-AllCounted, AllCounted-host,
}
use http_add_on.Interceptor.Counting.{Counting, inc}

module _ (rt : Radix HttpScaledObject) where
  abbrev Covers : Table rt → Type 0
  Covers t = AllCounted t.queue_counter t.http_scaled_objects

  add_write-Covers :
      (t : Table rt) (h : HttpScaledObject)
      → Plain h.key.namespace
      → Covers t
      → Ensures (add_write rt t h) Covers
  unfolding add_write
  add_write-Covers t h p c =
      Ensures-bind (ensure_key t.queue_counter (to_string h.key) (windows h).0 (windows h).1) _
        (Keeps (to_string h.key) t.queue_counter) Covers
        (ensure_key-Keeps t.queue_counter (to_string h.key) (windows h).0 (windows h).1)
        λ m x.
          insert-AllCounted m h.key h t.http_scaled_objects
            (record { own = refl; plain = p; host = x.there })
            (AllCounted-mono t.queue_counter m t.http_scaled_objects x.kept c)

  drop_old-AllCounted :
      (b : Bool) (old_key : NamespacedName) (objects : Dict NamespacedName HttpScaledObject)
      (m : Memory)
      → Plain old_key.namespace
      → AllCounted m objects
      → AllCounted (drop_old rt b old_key objects m).1 (drop_old rt b old_key objects m).0
  drop_old-AllCounted false old_key objects m p c = c
  drop_old-AllCounted true old_key objects m p c = remove-AllCounted m old_key objects p c

  update_write-Covers :
      (t : Table rt) (old new : HttpScaledObject)
      → Plain old.key.namespace
      → Plain new.key.namespace
      → Covers t
      → Ensures (update_write rt t old new) Covers
  unfolding update_write
  update_write-Covers t old new p q c =
      Ensures-bind
        (update_buckets t.queue_counter (to_string new.key) (windows new).0 (windows new).1) _
        (Keeps (to_string new.key) t.queue_counter) Covers
        (update_buckets-Keeps t.queue_counter (to_string new.key) (windows new).0 (windows new).1)
        λ m x.
          drop_old-AllCounted (not (name_eq old.key new.key)) old.key
            (insert new.key new t.http_scaled_objects) m p
            (insert-AllCounted m new.key new t.http_scaled_objects
              (record { own = refl; plain = q; host = x.there })
              (AllCounted-mono t.queue_counter m t.http_scaled_objects x.kept c))

  delete_write-Covers :
      (t : Table rt) (h : HttpScaledObject)
      → Plain h.key.namespace
      → Covers t
      → Covers (delete_write rt t h)
  unfolding delete_write
  delete_write-Covers t h p c = remove-AllCounted t.queue_counter h.key t.http_scaled_objects p c

  -- The objects that the handlers are called with have plain namespaces.
  abbrev pub StepPlain : {w v : World rt} → Step rt w v → Type 0
  StepPlain (added h u e s) = Plain h.key.namespace
  StepPlain (updated old new u e s) = Plain old.key.namespace × Plain new.key.namespace
  StepPlain (deleted h s) = Plain h.key.namespace
  StepPlain (raised n e s) = Unit
  StepPlain (build p s) = Unit
  StepPlain (publish m p s) = Unit
  StepPlain (wake l p e s) = Unit

  unfoldable pub ReachPlain : {counter : Memory} {w : World rt} → Reach rt counter w → Type 0
  ReachPlain (here w e) = Unit
  ReachPlain (next r s) = ReachPlain r × StepPlain s

  raise-Covers : (t : Table rt) → Covers t → Covers (raise rt t)
  unfolding raise
  raise-Covers t c = c

  set_memory-Covers : (t : Table rt) (m : _) → Covers t → Covers (set_memory rt t m)
  unfolding set_memory
  set_memory-Covers t m c = c

  Step-Covers : {w v : World rt} (s : Step rt w v) → StepPlain s → Covers w.table → Covers v.table
  Step-Covers {w} (added h u e s) p c =
      rw s (Ensures-eq (add_write rt w.table h) Covers u (add_write-Covers w.table h p c) e)
  Step-Covers {w} (updated old new u e s) (p, q) c = rw s (
      Ensures-eq (update_write rt w.table old new) Covers u
        (update_write-Covers w.table old new p q c) e)
  Step-Covers {w} (deleted h s) p c = rw s (delete_write-Covers w.table h p c)
  Step-Covers {w} (raised n e s) p c = rw s (raise-Covers w.table c)
  Step-Covers {w} (build q s) p c = rw s c
  Step-Covers {w} (publish m q s) p c = rw s (set_memory-Covers w.table m c)
  Step-Covers {w} (wake l q e s) p c = rw s c

  Reach-Covers :
      {counter : Memory} {w : World rt} (r : Reach rt counter w) → ReachPlain r → Covers w.table
  unfolding ReachPlain start new_table
  Reach-Covers (here w e) p = rw e tt
  Reach-Covers (next r s) (p, q) = Step-Covers s q (Reach-Covers r p)

  inc_total :
      (c : Counting) (host : Text) (now : ℕ)
      → IsSound c.queue_counter
      → Has c.queue_counter host
      → Returns (inc c host now) (λ d. IsSound d.queue_counter)
  unfolding inc
  inc_total c host now s h =
      Returns-bind (increase c.queue_counter host 1 now) _ IsSound (λ d. IsSound d.queue_counter)
        (increase_total c.queue_counter host 1 now s (s.paired host ∙ h)) λ m x. x

  IsRouted-In :
      (l : List HttpScaledObject) (key : Text) (o : Option HttpScaledObject) (h : HttpScaledObject)
      → o ≡ some h
      → IsRouted l key o
      → In h l
  IsRouted-In l key o h e i = let (q, begins, oldest, longest) = rw e at i in oldest.0

  -- In every interleaving of event handlers, for objects whose namespaces have no slash, with the
  -- loop that refreshes the memory: once the loop waits, no signal is pending and no handler stands
  -- between its write and its signal, a request that the table routes to an object can be counted
  -- under the object's name without a panic, at any time and by every sound counter that has at least
  -- the hosts that the handlers have left.
  pub quiescent_counts :
      {counter : Memory} {w : World rt} (req : Request) (h : HttpScaledObject) (c : Counting)
      (now : ℕ)
      → (r : Reach rt counter w) → ReachPlain r
      → w.phase ≡ waiting
      → w.unsignaled ≡ 0
      → w.table.memory_signaler ≡ false
      → table_route rt w.table (some req) ≡ some h
      → IsSound c.queue_counter
      → ((host : Text) → Has w.table.queue_counter host → Has c.queue_counter host)
      → Returns (inc c (to_string h.key) now) (λ d. IsSound d.queue_counter)
  quiescent_counts {w} req h c now r p idle none_left quiet routed sound more =
      let objects = w.table.http_scaled_objects in
      let there : In h (values objects) =
        IsRouted-In (values objects) (new_key_from_request (some req))
          (table_route rt w.table (some req)) h routed
          (quiescent_routes rt req r idle none_left quiet) in
      inc_total c (to_string h.key) now sound (
        more (to_string h.key)
          (AllCounted-host w.table.queue_counter objects h (Reach-Covers r p) there))
