-- ===== src/Routing/Table.antt =====
-- pkg/routing/table.go. The event handlers and the loop of `refreshMemory` run under the table's
-- mutex, so a run is a sequence of them. A run-time panic is `none`.

pub mod Refresh
pub mod Counted
pub mod Requests
pub mod Synced
pub mod Start
use http_add_on.Prelude.{
  ℕ, Bool, true, false, not, Option, none, some, List, [], ◌∷◌, ◌>>=◌, if◌then◌else◌, ◌≡◌, ◌↔◌,
  arith,
}
use http_add_on.Prelude.Text.{text_eq_iff}
use http_add_on.Prelude.Dict.{Dict, Eq, insert, remove}
use http_add_on.Api.{HttpScaledObject, NamespacedName, to_string, ScalingMetricSpec, RateMetricSpec}
use http_add_on.Queue.Time.{second}
use http_add_on.Queue.Memory
use http_add_on.Routing.Key.{Request, new_key_from_request}
use http_add_on.Routing.Radix.{Radix}
use http_add_on.Routing.Memory.{TableMemory, new_table_memory, remember_all, route, name_eq}
use http_add_on.Routing.Signaler.{new_signaler, signal}

pub name_eq_iff : (a b : NamespacedName) → (name_eq a b ≡ true) ↔ (a ≡ b)
name_eq_iff a b = ground (arith, text_eq_iff a.name b.name, text_eq_iff a.namespace b.namespace)

instance abbrev pub name_Eq : Eq NamespacedName
name_Eq = record { beq = name_eq; beq_iff = name_eq_iff }

abbrev pub minute : ℕ
minute = 60000000000

-- The window and the granularity of the object's rate metric, a minute and a second by default.
abbrev pub rate_of : Option ScalingMetricSpec → Option RateMetricSpec
rate_of none = none
rate_of (some m) = m.rate

abbrev pub window_of : Option RateMetricSpec → ℕ × ℕ
window_of none = (minute, second)
window_of (some r) = (r.window, r.granularity)

abbrev pub windows : HttpScaledObject → ℕ × ℕ
windows h = window_of (rate_of h.spec.scaling_metric)

abbrev pub values : {K V : Type 0} → Dict K V → List V
values [] = []
values ((k, v) ∷ m) = v ∷ values m

module _ (rt : Radix HttpScaledObject) where
  pub record Table : Type 0 where
    pub http_scaled_objects : Dict NamespacedName HttpScaledObject
    pub memory_holder : Option (TableMemory rt)
    pub memory_signaler : Bool
    pub queue_counter : Memory.Memory

  unfoldable pub new_table : Memory.Memory → Table
  unfolding new_signaler
  new_table counter = record {
    http_scaled_objects = [];
    memory_holder = none;
    memory_signaler = new_signaler;
    queue_counter = counter;
  }

  -- `t.memorySignaler.Signal()`, which the handlers defer: it comes after their writes.
  unfoldable pub raise : Table → Table
  unfolding signal
  raise t = record t { memory_signaler = signal t.memory_signaler }

  -- `OnAdd` up to the signal.
  unfoldable pub add_write : Table → HttpScaledObject → Option Table
  add_write t h = do
    counter ← Memory.ensure_key t.queue_counter (to_string h.key) (windows h).0 (windows h).1
    some (record t {
      queue_counter = counter;
      http_scaled_objects = insert h.key h t.http_scaled_objects;
    })

  -- `OnAdd`; `none` is an object of another type, which is passed over.
  unfoldable pub on_add : Table → Option HttpScaledObject → Option Table
  unfolding raise add_write
  on_add t none = some t
  on_add t (some h) = do u ← add_write t h; some (raise u)

  abbrev pub drop_old :
      Bool
      → NamespacedName
      → Dict NamespacedName HttpScaledObject
      → Memory.Memory
      → Dict NamespacedName HttpScaledObject × Memory.Memory
  drop_old false old_key objects counter = (objects, counter)
  drop_old true old_key objects counter =
      (remove old_key objects, (Memory.remove_key counter (to_string old_key)).0)

  -- `OnUpdate` up to the signal.
  unfoldable pub update_write : Table → HttpScaledObject → HttpScaledObject → Option Table
  update_write t old new = do
    counter ←
        Memory.update_buckets t.queue_counter (to_string new.key) (windows new).0 (windows new).1
    let must_delete = not (name_eq old.key new.key)
    let objects = insert new.key new t.http_scaled_objects
    let (objects', counter') = drop_old must_delete old.key objects counter
    some (record t { queue_counter = counter'; http_scaled_objects = objects' })

  unfoldable pub on_update :
      Table → Option HttpScaledObject → Option HttpScaledObject → Option Table
  unfolding raise update_write
  on_update t none new = some t
  on_update t (some old) none = some t
  on_update t (some old) (some new) = do u ← update_write t old new; some (raise u)

  -- `OnDelete` up to the signal.
  unfoldable pub delete_write : Table → HttpScaledObject → Table
  delete_write t h = record t {
    http_scaled_objects = remove h.key t.http_scaled_objects;
    queue_counter = (Memory.remove_key t.queue_counter (to_string h.key)).0;
  }

  unfoldable pub on_delete : Table → Option HttpScaledObject → Table
  unfolding raise delete_write
  on_delete t none = t
  on_delete t (some h) = raise (delete_write t h)

  -- `newMemoryFromHTTPSOs`; Go visits a map in any order, here it is the list's.
  unfoldable pub new_memory_from_httpsos : Table → TableMemory rt
  new_memory_from_httpsos t = remember_all rt (new_table_memory rt) (values t.http_scaled_objects)

  -- `t.memoryHolder.Set(m)`
  unfoldable pub set_memory : Table → TableMemory rt → Table
  set_memory t m = record t { memory_holder = some m }

  unfoldable pub table_route : Table → Option Request → Option HttpScaledObject
  table_route t none = none
  table_route t (some req) = elim t.memory_holder [
    | none ↦ none
    | some tm ↦ route rt tm (new_key_from_request (some req))
  ]

  unfoldable pub has_synced : Table → Bool
  has_synced t = Memory.is_some t.memory_holder

  -- `HealthCheck`: whether the error `errNotSyncedTable` is returned.
  unfoldable pub health_check : Table → Bool
  unfolding has_synced
  health_check t = not (has_synced t)
