-- ===== src/Controller/Closed/Ticks.antt =====
-- A tick, and whole histories, leave a closed queue item as it is.
use app_datasource_validator.Prelude.{
  ℕ, String, ◌==◌, ◌≡◌, ◌≢◌, Bool, Option, none, some, List, [], ◌∷◌, arith, All-keep_passed,
}
use app_datasource_validator.Kv.{find, docs}
use app_datasource_validator.Exec.Keeps.{Keeps, Keeps-bind, Keeps-pure}
use app_datasource_validator.Exec.Gives.{Gives, Gives-then-Keeps}
use app_datasource_validator.Models.DataSource.{DataSource}
use app_datasource_validator.Models.Queue.{QueueItem, queue_status_running}
use app_datasource_validator.Models.WorkerLease.{WorkerLease}
use app_datasource_validator.Stores.{World, Stores}
use app_datasource_validator.Stores.Queue
use app_datasource_validator.Stores.Leases
use app_datasource_validator.Executor.{SearchExecutor, DispatchResult, ValidationOutcome}
use app_datasource_validator.Controller.{find_next_queued}
use app_datasource_validator.Controller.Tick.{
  record_refusal, record_dispatch, drop_item, dispatch_item, dispatch_found, dispatch_next,
  finalize_outcome, handle_running_item, tick_with_lease, tick_work, run_tick,
}
use app_datasource_validator.Controller.Frame.{framed_rules}
use app_datasource_validator.Controller.Frame.Operations.{
  update_status-Keeps, result_create-Keeps, advance-Keeps, dispatch-Keeps, cancel-Keeps, get-Keeps,
  check_stuck-Keeps, try_acquire-Keeps,
}
use app_datasource_validator.Controller.SingleFlight.History.{
  Call, created, cancelled, ticked, after, Reach, start, next,
}
use app_datasource_validator.Controller.Closed.{Sound, Holds, Holds-Framed, open_apart}
use app_datasource_validator.Controller.Closed.Operations.{
  Others, Other, mark_done-Holds, mark_running-Holds, finalize-Holds, find_next-Gives,
  create_run-Holds, cancel_run-Holds,
}

Other-first : (k : String) (qs : List QueueItem) → Others k qs → Other k (Queue.first qs)
Other-first k [] others = tt
Other-first k (q ∷ qs) (other, others) = other

module _ (k : String) {i : QueueItem} (w : World) where
  record_refusal-Holds :
      (q : QueueItem) (ds : DataSource) (r : DispatchResult)
      → q.queue_id ≢ k
      → Keeps (Holds k i) (record_refusal w q ds r)
  unfolding record_refusal
  record_refusal-Holds q ds r other =
      search
        (
          framed_rules, Holds-Framed, mark_done-Holds, result_create-Keeps, update_status-Keeps,
          advance-Keeps, other,
        )
        depth 8

  record_dispatch-Holds :
      (q : QueueItem) (ds : DataSource) (r : DispatchResult)
      → q.queue_id ≢ k
      → Keeps (Holds k i) (record_dispatch w q ds r)
  unfolding record_dispatch
  record_dispatch-Holds q ds r other =
      search (framed_rules, Holds-Framed, mark_running-Holds, update_status-Keeps, other) depth 8

  drop_item-Holds : (q : QueueItem) → q.queue_id ≢ k → Keeps (Holds k i) (drop_item w q)
  unfolding drop_item
  drop_item-Holds q other =
      search (framed_rules, Holds-Framed, mark_done-Holds, advance-Keeps, other)

  module _ (x : SearchExecutor) (is_admin : Bool) where
    dispatch_item-Holds :
        (q : QueueItem) (ds : Option DataSource)
        → q.queue_id ≢ k
        → Keeps (Holds k i) (dispatch_item w x is_admin q ds)
    dispatch_item-Holds q none other = drop_item-Holds q other
    dispatch_item-Holds q (some ds) other =
        search
          (
            framed_rules, Holds-Framed, dispatch-Keeps, record_refusal-Holds, record_dispatch-Holds,
            other,
          )
          depth 8

    dispatch_found-Holds :
        (q : Option QueueItem) → Other k q → Keeps (Holds k i) (dispatch_found w x is_admin q)
    dispatch_found-Holds none other = Keeps-pure tt
    dispatch_found-Holds (some q) other =
        search (framed_rules, Holds-Framed, get-Keeps, dispatch_item-Holds, other)

    dispatch_next-Holds : Keeps (Holds k i) (dispatch_next w x is_admin)
    unfolding dispatch_next
    dispatch_next-Holds =
        Gives-then-Keeps find_next_queued (dispatch_found w x is_admin) (find_next-Gives k w)
          dispatch_found-Holds

  module _ (x : SearchExecutor) (timeout : ℕ) where
    finalize_outcome-Holds :
        (q : QueueItem) (o : Option ValidationOutcome)
        → q.queue_id ≢ k
        → Keeps (Holds k i) (finalize_outcome w x timeout q o)
    finalize_outcome-Holds q none other = Keeps-pure tt
    finalize_outcome-Holds q (some o) other = finalize-Holds k w q o other

    handle_running-Holds :
        (q : QueueItem) → q.queue_id ≢ k → Keeps (Holds k i) (handle_running_item w x timeout q)
    unfolding handle_running_item
    handle_running-Holds q other =
        search
          (
            framed_rules, Holds-Framed, check_stuck-Keeps, cancel-Keeps, finalize-Holds,
            finalize_outcome-Holds, other,
          )
          depth 8

    running-Gives : Gives (Holds k i) (Other k) Queue.find_any_running
    unfolding Queue.find_any_running
    running-Gives = record {
      from = λ s h. (
        h,
        Other-first k _ (
            All-keep_passed (λ q. q.status == queue_status_running)
              (λ q passed other. other (ground (arith, passed))) (docs s.queue)
              (open_apart k s.queue h.sound)),
      );
    }

    tick_work-Holds :
        (is_admin : Bool) (q : Option QueueItem)
        → Other k q
        → Keeps (Holds k i) (tick_work w x timeout is_admin q)
    tick_work-Holds is_admin none other = dispatch_next-Holds x is_admin
    tick_work-Holds is_admin (some q) other = handle_running-Holds q other

    with_lease-Holds :
        (is_admin : Bool) (l : Option WorkerLease)
        → Keeps (Holds k i) (tick_with_lease w x timeout is_admin l)
    with_lease-Holds is_admin none = Keeps-pure tt
    with_lease-Holds is_admin (some l) =
        Gives-then-Keeps Queue.find_any_running (tick_work w x timeout is_admin) running-Gives
          (tick_work-Holds is_admin)

    run_tick-Holds :
        (owner : String) (ttl : ℕ) (is_admin : Bool)
        → Keeps (Holds k i) (run_tick w x timeout owner ttl is_admin)
    unfolding run_tick
    run_tick-Holds owner ttl is_admin =
        Keeps-bind (Leases.try_acquire w owner ttl) (tick_with_lease w x timeout is_admin)
          (try_acquire-Keeps (Holds-Framed k) w owner ttl) (with_lease-Holds is_admin)

module _ (k : String) {i : QueueItem} where
  after-Holds : (c : Call) (s : Stores) → Holds k i s → Holds k i (after c s)
  unfolding after
  after-Holds (created w by trigger ids) s h = (create_run-Holds k w by trigger ids).from s h
  after-Holds (cancelled w id) s h = (cancel_run-Holds k w id).from s h
  after-Holds (ticked w x timeout owner ttl is_admin) s h =
      (run_tick-Holds k w x timeout owner ttl is_admin).from s h

  Reach-Holds : {s t : Stores} → Reach s t → Holds k i s → Holds k i t
  Reach-Holds start h = h
  Reach-Holds (next c r e) h = rw e (after-Holds c _ (Reach-Holds r h))

  -- What is over stays over: if a queue item is DONE, ERROR or CANCELLED, then after any runs that
  -- are created and cancelled and any ticks of any workers, in any order, it stands in the queue as
  -- it was. So it is not dispatched again, and its outcome is not changed. The items of the queue
  -- stand under their own identifiers, and all that stand under this one are closed.
  pub closed-stays :
      {s t : Stores}
      → Reach s t
      → Sound k s.queue
      → find k s.queue ≡ some i
      → find k t.queue ≡ some i
  closed-stays r sound held = (Reach-Holds r (record { sound = sound; held = held })).held
