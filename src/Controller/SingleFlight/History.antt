-- ===== src/Controller/SingleFlight/History.antt =====
-- Everything that the REST handlers and the workers do to the queue, in any order.
use app_datasource_validator.Prelude.{ℕ, String, ◌≡◌, Bool, Option, List}
use app_datasource_validator.Stores.{World, Stores}
use app_datasource_validator.Executor.{SearchExecutor}
use app_datasource_validator.Controller.{create_run, cancel_run}
use app_datasource_validator.Controller.Tick.{run_tick}
use app_datasource_validator.Controller.SingleFlight.Frame.{AtMost}
use app_datasource_validator.Controller.SingleFlight.Operations.{
  create_run-AtMost, cancel_run-AtMost,
}
use app_datasource_validator.Controller.SingleFlight.Ticks.{run_tick-AtMost}

-- One call: a run is created or cancelled, or some worker ticks. The clock, the identifiers and the
-- answers of the platform may be others at each call.
pub data Call : Type 0 where
  created : World → String → String → Option (List String) → Call
  cancelled : World → String → Call
  ticked : World → SearchExecutor → ℕ → String → ℕ → Bool → Call

-- The stores after a call, also where it raises.
unfoldable pub after : Call → Stores → Stores
unfolding create_run cancel_run run_tick
after (created w by trigger ids) s = (create_run w by trigger ids s).1
after (cancelled w id) s = (cancel_run w id s).1
after (ticked w x timeout owner ttl is_admin) s = (run_tick w x timeout owner ttl is_admin s).1

pub data Reach (s : Stores) : Stores → Type 0 where
  start : Reach s s
  next : {t : Stores} (c : Call) {u : Stores} → Reach s t → u ≡ after c t → Reach s u

after-AtMost : (c : Call) (s : Stores) → AtMost 1 s → AtMost 1 (after c s)
unfolding after
after-AtMost (created w by trigger ids) s h = (create_run-AtMost w by trigger ids).from s h
after-AtMost (cancelled w id) s h = (cancel_run-AtMost w id).from s h
after-AtMost (ticked w x timeout owner ttl is_admin) s h =
    (run_tick-AtMost w x timeout is_admin owner ttl).from s h

-- Single flight over whole histories: from stores with at most one RUNNING queue item, whatever
-- runs are created and cancelled and whatever workers tick, in any order, at most one queue item is
-- RUNNING.
pub Reach-AtMost : {s t : Stores} → Reach s t → AtMost 1 s → AtMost 1 t
Reach-AtMost start h = h
Reach-AtMost (next c r e) h = rw e (after-AtMost c _ (Reach-AtMost r h))
