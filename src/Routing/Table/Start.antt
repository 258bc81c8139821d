-- ===== src/Routing/Table/Start.antt =====
-- `NewTable` and `Start` of pkg/routing/table.go, with `runInformer` and `refreshMemory`: the group of
-- golang.org/x/sync/errgroup keeps the first error and then cancels its context, and its `Wait`
-- returns when both functions have.

pub mod Within
pub mod Returns
use http_add_on.Prelude.{◌≡◌, Bool, true, false, Option, none, some}
use http_add_on.Prelude.Text.{codes}
use http_add_on.Api.{HttpScaledObject}
use http_add_on.Queue.Memory
use http_add_on.Routing.Radix.{Radix}
use http_add_on.Routing.Signaler.{wait, context_done}
use http_add_on.Routing.Table.{Table, new_table}
use http_add_on.Routing.Table.Refresh
use http_add_on.Routing.Table.Refresh.{waiting}
use http_add_on.Process.{Err, canceled, other}

abbrev pub err_unknown_shared_index_informer : Err
err_unknown_shared_index_informer = other (codes "informer is not cache.sharedIndexInformer")

abbrev pub err_started_shared_index_informer : Err
err_started_shared_index_informer =
    other (codes "sharedIndexInformer has started, run more than once is not allowed")

abbrev pub err_stopped_shared_index_informer : Err
err_stopped_shared_index_informer = other (codes "sharedIndexInformer has stopped")

-- `runInformer`, with the context's error, if any, when `Run` has returned.
unfoldable pub run_informer : Bool → Option Err → Err
run_informer true err = err_started_shared_index_informer
run_informer false (some err) = err
run_informer false none = err_stopped_shared_index_informer

-- Where `refreshMemory` stands: in its first loop, in its second, or returned.
pub data Refresher : Type 0 where
  syncing looping refresher_returned : Refresher

pub data Informer : Type 0 where
  running informer_returned : Informer

abbrev pub or_first : Option Err → Err → Option Err
or_first none err = some err
or_first (some first) err = some first

module _ (rt : Radix HttpScaledObject) where
  pub data Created : Type 0 where
    refused : Err → Created
    created : Table rt → Created

  -- `NewTable`: whether the informer is a shared one, and the error of `AddEventHandler`.
  unfoldable pub create : Bool → Option Err → Memory.Memory → Created
  create false err counter = refused err_unknown_shared_index_informer
  create true (some err) counter = refused err
  create true none counter = created (new_table rt counter)

  -- The context that `Start` is given ends by a cancellation, as that of the
  -- mains does; the group's own has an error when it is done.
  pub record Run : Type 0 where
    pub world : Refresh.World rt
    pub parent_done : Bool
    pub context : Option Err
    pub informer : Informer
    pub refresher : Refresher
    pub first_error : Option Err

  unfoldable pub start : Table rt → Run
  start t = record {
    world = record { table = t; unsignaled = 0; phase = Refresh.starting };
    parent_done = false;
    context = none;
    informer = running;
    refresher = syncing;
    first_error = none;
  }

  -- A function of the group has returned an error.
  unfoldable pub fail : Run → Err → Run
  fail w err = record w {
    context = or_first w.context canceled;
    first_error = or_first w.first_error err;
  }

  unfoldable pub cancel : Run → Run
  cancel w = record w { parent_done = true; context = or_first w.context canceled }

  abbrev pub is_done : Option Err → Bool
  is_done none = false
  is_done (some err) = true

  -- `has_started` is what the informer says of itself when `Start` is called.
  pub data Step (has_started : Bool) (w v : Run) : Type 0 where
    cancels : v ≡ cancel w → Step has_started w v
    -- a handler, which the informer calls and which leaves the loop where it is
    handles :
        (u : Refresh.World rt)
        → has_started ≡ false
        → w.informer ≡ running
        → Refresh.Step rt w.world u
        → u.phase ≡ w.world.phase
        → v ≡ record w { world = u }
        → Step has_started w v
    informer_returns :
        w.informer ≡ running
        → v ≡ record (fail w (run_informer has_started w.context)) { informer = informer_returned }
        → Step has_started w v
    has_synced : w.refresher ≡ syncing → v ≡ record w { refresher = looping } → Step has_started w v
    sync_ends :
        (err : Err)
        → w.refresher ≡ syncing
        → w.context ≡ some err
        → v ≡ record (fail w err) { refresher = refresher_returned }
        → Step has_started w v
    loops :
        (u : Refresh.World rt)
        → w.refresher ≡ looping
        → Refresh.Step rt w.world u
        → v ≡ record w { world = u }
        → Step has_started w v
    loop_ends :
        (err : Err) (prefer_signal left : Bool)
        → w.refresher ≡ looping
        → w.world.phase ≡ waiting
        → w.context ≡ some err
        → wait prefer_signal w.world.table.memory_signaler (is_done w.context)
          ≡ (left, context_done)
        → v ≡ record (fail w err) { refresher = refresher_returned }
        → Step has_started w v

  -- Every step from a table that `NewTable` gives.
  pub data Reach (has_started : Bool) (counter : Memory.Memory) (add_error : Option Err)
      : Run → Type 0 where
    here :
        (t : Table rt)
        → create true add_error counter ≡ created t
        → Reach has_started counter add_error (start t)
    next :
        {w v : Run}
        → Reach has_started counter add_error w
        → Step has_started w v
        → Reach has_started counter add_error v

  -- What `Wait` returns, once it does.
  unfoldable pub returned : Run → Option (Option Err)
  returned w = elim w.informer [
    | running ↦ none
    | informer_returned ↦ elim w.refresher [
      | syncing ↦ none
      | looping ↦ none
      | refresher_returned ↦ some w.first_error
    ]
  ]
