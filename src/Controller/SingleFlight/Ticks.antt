-- ===== src/Controller/SingleFlight/Ticks.antt =====
-- A tick keeps at most one item RUNNING, whatever the platform answers.
use app_datasource_validator.Prelude.{
  ℕ, String, ◌≡◌, refl, Bool, Option, none, some, List, [], ◌∷◌, arith, keep, tally,
}
use app_datasource_validator.Kv.{docs}
use app_datasource_validator.Exec.Keeps.{
  Keeps, Leads, Keeps-bind, Keeps-pure, Keeps-Leads, Leads-then-Keeps, Keeps-then-Leads,
  Leads-branch,
}
use app_datasource_validator.Models.DataSource.{DataSource}
use app_datasource_validator.Models.Queue.{QueueItem}
use app_datasource_validator.Models.WorkerLease.{WorkerLease}
use app_datasource_validator.Stores.{World, Stores, queue_slot, update}
use app_datasource_validator.Stores.Queue
use app_datasource_validator.Executor.{SearchExecutor, DispatchResult, ValidationOutcome}
use app_datasource_validator.Controller.Tick.{
  record_refusal, record_dispatch, drop_item, dispatch_item, dispatch_found, dispatch_next,
  finalize_outcome, handle_running_item, tick_with_lease, tick_work, run_tick,
}
use app_datasource_validator.Controller.Frame.{Keeps-require_raw, Framed-utcnow}
use app_datasource_validator.Controller.Frame.Operations.{
  update_status-Keeps, result_create-Keeps, advance-Keeps, find_next-Keeps, dispatch-Keeps,
  cancel-Keeps, get-Keeps, check_stuck-Keeps, try_acquire-Keeps,
}
use app_datasource_validator.Controller.SingleFlight.Frame.{
  AtMost, AtMost-Framed, is_running, update_item-one_more,
}
use app_datasource_validator.Controller.SingleFlight.Operations.{
  frame_rules, mark_done-AtMost, finalize-AtMost,
}

-- Nothing is RUNNING where the query for RUNNING items finds nothing.
tally-of_none :
    (is : List QueueItem) → Queue.first (keep is_running is) ≡ none → tally is_running is ≡ 0
tally-of_none [] h = refl
tally-of_none (i ∷ is) h = ground (arith, tally-of_none is)

module _ (w : World) where
  module _ {n : ℕ} where
    record_refusal-AtMost :
        (item : QueueItem) (ds : DataSource) (r : DispatchResult)
        → Keeps (AtMost n) (record_refusal w item ds r)
    unfolding record_refusal
    record_refusal-AtMost item ds r =
        search
          (frame_rules, mark_done-AtMost, result_create-Keeps, update_status-Keeps, advance-Keeps)
          depth 8

    drop_item-AtMost : (item : QueueItem) → Keeps (AtMost n) (drop_item w item)
    unfolding drop_item
    drop_item-AtMost item = search (frame_rules, mark_done-AtMost, advance-Keeps)

    finalize_outcome-AtMost :
        (x : SearchExecutor) (t : ℕ) (item : QueueItem) (o : Option ValidationOutcome)
        → Keeps (AtMost n) (finalize_outcome w x t item o)
    finalize_outcome-AtMost x t item none = search frame_rules
    finalize_outcome-AtMost x t item (some o) = finalize-AtMost w item o

    handle_running-AtMost :
        (x : SearchExecutor) (t : ℕ) (item : QueueItem)
        → Keeps (AtMost n) (handle_running_item w x t item)
    unfolding handle_running_item
    handle_running-AtMost x t item =
        search
          (frame_rules, check_stuck-Keeps, cancel-Keeps, finalize-AtMost, finalize_outcome-AtMost)
          depth 8

  none→one : (s : Stores) → AtMost 0 s → AtMost 1 s
  none→one s h = record { bound = omega (arith, h.bound) }

  mark_running-Leads :
      (id : String) (sid : Option String)
      → Leads (AtMost 0) (AtMost 1) (Queue.mark_running w id sid)
  unfolding Queue.mark_running
  mark_running-Leads id sid =
      Keeps-then-Leads _ _ none→one (Keeps-require_raw queue_slot id) λ current.
        Keeps-then-Leads _ _ none→one (Framed-utcnow AtMost-Framed w) λ now.
          Leads-then-Keeps (update queue_slot id (Queue.started sid now current)) _
            (record { from = update_item-one_more id (Queue.started sid now current) })
            (λ _. Keeps-pure (Queue.started sid now current))

  record_dispatch-Leads :
      (item : QueueItem) (ds : DataSource) (r : DispatchResult)
      → Leads (AtMost 0) (AtMost 1) (record_dispatch w item ds r)
  unfolding record_dispatch
  record_dispatch-Leads item ds r =
      Leads-then-Keeps _ _ (mark_running-Leads item.queue_id r.sid)
        (λ _. search (frame_rules, update_status-Keeps))

  module _ (x : SearchExecutor) (is_admin : Bool) where
    dispatch_item-Leads :
        (item : QueueItem) (ds : Option DataSource)
        → Leads (AtMost 0) (AtMost 1) (dispatch_item w x is_admin item ds)
    dispatch_item-Leads item none = Keeps-Leads _ none→one (drop_item-AtMost item)
    dispatch_item-Leads item (some ds) =
        Keeps-then-Leads _ _ none→one (dispatch-Keeps AtMost-Framed w x ds.spl_query is_admin) λ r.
          Leads-branch _ _ _ (Keeps-Leads _ none→one (record_refusal-AtMost item ds r))
            (record_dispatch-Leads item ds r)

    dispatch_found-Leads :
        (item : Option QueueItem) → Leads (AtMost 0) (AtMost 1) (dispatch_found w x is_admin item)
    dispatch_found-Leads none = Keeps-Leads _ none→one (search frame_rules)
    dispatch_found-Leads (some item) =
        Keeps-then-Leads _ _ none→one (get-Keeps AtMost-Framed w item.datasource_id)
          (λ ds. dispatch_item-Leads item _)

    dispatch_next-Leads : Leads (AtMost 0) (AtMost 1) (dispatch_next w x is_admin)
    unfolding dispatch_next
    dispatch_next-Leads =
        Keeps-then-Leads _ _ none→one (find_next-Keeps AtMost-Framed w) dispatch_found-Leads

  module _ (x : SearchExecutor) (timeout : ℕ) (is_admin : Bool) where
    work-AtMost :
        (s : Stores) (found : Option QueueItem)
        → Queue.first (keep is_running (docs s.queue)) ≡ found
        → AtMost 1 s
        → AtMost 1 (tick_work w x timeout is_admin found s).1
    work-AtMost s none idle h =
        (dispatch_next-Leads x is_admin).from s
          (record { bound = omega (arith, tally-of_none (docs s.queue) idle) })
    work-AtMost s (some item) busy h = (handle_running-AtMost x timeout item).from s h

    -- What the tick does once it holds the lease.
    with_lease-AtMost :
        (lease : Option WorkerLease) → Keeps (AtMost 1) (tick_with_lease w x timeout is_admin lease)
    unfolding Queue.find_any_running
    with_lease-AtMost none = search frame_rules
    with_lease-AtMost (some lease) = record { from = λ s h. work-AtMost s _ refl h }

    -- Single flight: if at most one queue item is RUNNING before a tick, then at most one is after
    -- it, whoever owns the lease, whatever the parser and the job client answer, and also if the
    -- tick ends in an exception.
    pub run_tick-AtMost :
        (owner : String) (ttl : ℕ) → Keeps (AtMost 1) (run_tick w x timeout owner ttl is_admin)
    unfolding run_tick
    run_tick-AtMost owner ttl =
        Keeps-bind _ _ (try_acquire-Keeps AtMost-Framed w owner ttl) with_lease-AtMost
