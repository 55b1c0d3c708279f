-- ===== src/Controller/Tick.antt =====
-- bin/validation_controller.py: `run_tick`, with the dispatch and the poll that it calls.
use app_datasource_validator.Prelude.{
  ℕ, ◌+◌, ◌*◌, String, Bool, false, not, Option, none, some, ltb, if◌then◌else◌,
}
use app_datasource_validator.Exec.{pure, ◌>>=◌, ◌>>◌}
use app_datasource_validator.Models.DataSource.{DataSource, status_running, status_error}
use app_datasource_validator.Models.Queue.{QueueItem, queue_status_error, queue_status_cancelled}
use app_datasource_validator.Models.ValidationResult.{stuck_job}
use app_datasource_validator.Models.WorkerLease.{WorkerLease}
use app_datasource_validator.Stores.{World, Action, utcnow}
use app_datasource_validator.Stores.DataSources
use app_datasource_validator.Stores.Queue
use app_datasource_validator.Stores.Results
use app_datasource_validator.Stores.Leases
use app_datasource_validator.Executor
use app_datasource_validator.Executor.{SearchExecutor, DispatchResult, ValidationOutcome}
use app_datasource_validator.Controller.{finalize, advance_run_progress, find_next_queued}

-- A data source that was deleted or disabled while it was queued is dropped.
abbrev pub in_scope : Option DataSource → Option DataSource
in_scope none = none
in_scope (some ds) = if not ds.enabled then none else some ds

abbrev pub refusal : QueueItem → DataSource → DispatchResult → Results.NewResult
refusal item ds r = record {
  run_id = item.run_id;
  queue_id = item.queue_id;
  datasource_id = ds.datasource_id;
  platform_id = ds.platform_id;
  status = status_error;
  result_count = 0;
  query_hash = ds.query_hash;
  query_version = ds.query_version;
  error_message = r.reason;
}

module _ (w : World) where
  -- A query that was refused is recorded as an ERROR.
  unfoldable pub record_refusal : QueueItem → DataSource → DispatchResult → Action (Unit {0})
  unfolding Queue.mark_done Results.create utcnow DataSources.update_status advance_run_progress
      ◌>>=◌
  record_refusal item ds result = do
    Queue.mark_done w item.queue_id queue_status_error
    Results.create w (refusal item ds result) none
    now ← utcnow w
    DataSources.update_status w ds.datasource_id status_error (some now) (some item.run_id)
    advance_run_progress w item.run_id

  unfoldable pub record_dispatch : QueueItem → DataSource → DispatchResult → Action (Unit {0})
  unfolding Queue.mark_running DataSources.update_status ◌>>=◌
  record_dispatch item ds result = do
    Queue.mark_running w item.queue_id result.sid
    DataSources.update_status w ds.datasource_id status_running none none
    pure tt

  unfoldable pub drop_item : QueueItem → Action (Unit {0})
  unfolding Queue.mark_done advance_run_progress ◌>>=◌
  drop_item item = do
    Queue.mark_done w item.queue_id queue_status_cancelled
    advance_run_progress w item.run_id

  module _ (x : SearchExecutor) (is_admin : Bool) where
    abbrev pub dispatch_item : QueueItem → Option DataSource → Action (Unit {0})
    dispatch_item item none = drop_item item
    dispatch_item item (some ds) = do
      result ← Executor.dispatch x ds.spl_query is_admin
      if not result.allowed then record_refusal item ds result else record_dispatch item ds result

    abbrev pub dispatch_found : Option QueueItem → Action (Unit {0})
    dispatch_found none = pure tt
    dispatch_found (some item) = do
      datasource ← DataSources.get item.datasource_id
      dispatch_item item (in_scope datasource)

    unfoldable pub dispatch_next : Action (Unit {0})
    unfolding find_next_queued DataSources.get Executor.dispatch record_refusal record_dispatch
        drop_item ◌>>=◌
    dispatch_next = do next_item ← find_next_queued; dispatch_found next_item

  -- `(now - dispatched).total_seconds() > timeout`, in milliseconds.
  abbrev pub is_stuck : Option ℕ → ℕ → ℕ → Bool
  is_stuck none now timeout = false
  is_stuck (some dispatched) now timeout = ltb (dispatched + 1000 * timeout) now

  module _ (x : SearchExecutor) (stuck_job_timeout_sec : ℕ) where
    abbrev pub finalize_outcome : QueueItem → Option ValidationOutcome → Action (Unit {0})
    finalize_outcome item none = pure tt
    finalize_outcome item (some outcome) = finalize w item outcome

    abbrev pub poll_item : QueueItem → Action (Unit {0})
    poll_item item = do outcome ← Executor.poll x item.sid; finalize_outcome item outcome

    abbrev pub timed_out : ValidationOutcome
    timed_out = record {
      status = status_error;
      result_count = 0;
      error_message = some (stuck_job stuck_job_timeout_sec);
    }

    -- The clock is read only for an item with a dispatch time.
    abbrev pub check_stuck : QueueItem → Option ℕ → Action Bool
    check_stuck item none = pure false
    check_stuck item (some dispatched) = do
      now ← utcnow w
      pure (is_stuck (some dispatched) now stuck_job_timeout_sec)

    unfoldable pub handle_running_item : QueueItem → Action (Unit {0})
    unfolding utcnow Executor.cancel Executor.poll finalize ◌>>=◌
    handle_running_item item = do
      stuck ← check_stuck item item.dispatched_time
      if stuck then (Executor.cancel x item.sid >> finalize w item timed_out) else poll_item item

    abbrev pub tick_work : Bool → Option QueueItem → Action (Unit {0})
    tick_work is_admin none = dispatch_next x is_admin
    tick_work is_admin (some item) = handle_running_item item

    abbrev pub tick_with_lease : Bool → Option WorkerLease → Action (Unit {0})
    tick_with_lease is_admin none = pure tt
    tick_with_lease is_admin (some lease) = do
      running_item ← Queue.find_any_running
      tick_work is_admin running_item

    unfoldable pub run_tick : String → ℕ → Bool → Action (Unit {0})
    unfolding Leases.try_acquire Queue.find_any_running handle_running_item dispatch_next ◌>>=◌
    run_tick lease_owner lease_ttl_sec is_admin = do
      lease ← Leases.try_acquire w lease_owner lease_ttl_sec
      tick_with_lease is_admin lease
