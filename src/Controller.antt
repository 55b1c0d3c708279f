-- ===== src/Controller.antt =====
-- bin/validation_controller.py: runs are created and cancelled, and one tick of the single worker
-- polls the job in flight or dispatches the next queued item. Logging is left out.
pub mod Tick
pub mod SingleFlight
mod Tests
pub mod Edits
pub mod Finalize
pub mod Progress
pub mod Effects
pub mod Creation
pub mod Stuck
pub mod Frame
pub mod Closed
use app_datasource_validator.Prelude.{
  ℕ, zero, suc, ◌+◌, ◌*◌, ℤ, pos, String, ◌==◌, Bool, true, false, not, ◌&&◌, ◌||◌, Option, none,
  some, List, [], ◌∷◌, ◌++◌, ltb, leb, ltb_ℤ, leb_ℤ, sort, length, tally, keep, any, is_nil,
  is_some, if◌then◌else◌,
}
use app_datasource_validator.Text.{codes, text_leb}
use app_datasource_validator.Exec.{
  Error, not_found, value_error, Result, ok, err, Exec, pure, raise, lift, for_each, ◌>>=◌, ◌>>◌,
}
use app_datasource_validator.Models.DataSource.{
  DataSource, status_queued, status_running, status_error, status_cancelled,
}
use app_datasource_validator.Models.Platform.{Platform}
use app_datasource_validator.Models.Queue.{
  QueueItem, queue_status_queued, queue_status_running, queue_status_done, queue_status_error,
  queue_status_cancelled,
}
use app_datasource_validator.Models.Run.{ValidationRun, run_status_running}
use app_datasource_validator.Models.ValidationResult.{ErrorMessage}
use app_datasource_validator.Models.WorkerLease.{WorkerLease}
use app_datasource_validator.Stores.{World, Stores, Action, utcnow}
use app_datasource_validator.Stores.Platforms
use app_datasource_validator.Stores.DataSources
use app_datasource_validator.Stores.Queue
use app_datasource_validator.Stores.Queue.{NewItem}
use app_datasource_validator.Stores.Runs
use app_datasource_validator.Stores.Results
use app_datasource_validator.Executor.{ValidationOutcome}

-- `platforms.get(platform_id)`; a dictionary comprehension keeps the last platform of an id.
unfoldable pub platform_of : List Platform → String → Option Platform
platform_of [] platform_id = none
platform_of (p ∷ ps) platform_id =
    let later = platform_of ps platform_id in
    if is_some later then later else if p.platform_id == platform_id then some p else none

abbrev pub platform_enabled : Option Platform → Bool
platform_enabled none = false
platform_enabled (some p) = p.enabled

abbrev pub is_requested : Option (List String) → DataSource → Bool
is_requested none ds = true
is_requested (some ids) ds = any (λ i. i == ds.datasource_id) ids

-- The loop that fills `selected`.
unfoldable pub select : List Platform → Option (List String) → List DataSource → List DataSource
unfolding platform_of
select platforms datasource_ids = keep (λ ds.
    is_requested datasource_ids ds
    && ds.enabled
    && platform_enabled (platform_of platforms ds.platform_id))

abbrev pub platform_order : Option Platform → ℤ
platform_order none = pos 0
platform_order (some p) = p.sort_order

-- `<=` on the tuples of `sort_key`.
unfoldable pub by_sort_key : List Platform → DataSource → DataSource → Bool
unfolding platform_of text_leb
by_sort_key platforms a b =
    let p = platform_order (platform_of platforms a.platform_id) in
    let q = platform_order (platform_of platforms b.platform_id) in
    ltb_ℤ p q
    || leb_ℤ p q
      && (ltb_ℤ a.sort_order b.sort_order
          || leb_ℤ a.sort_order b.sort_order && text_leb (codes a.name) (codes b.name))

-- The items of the queue, numbered from `idx` on.
unfoldable pub queue_items : ℕ → List DataSource → List NewItem
queue_items idx [] = []
queue_items idx (ds ∷ rest) =
    record {
      platform_id = ds.platform_id;
      datasource_id = ds.datasource_id;
      order_index = idx;
      query_hash = ds.query_hash;
      query_version = ds.query_version;
    }
    ∷ queue_items (suc idx) rest

abbrev pub is_finished : QueueItem → Bool
is_finished i =
    i.status == queue_status_done
    || i.status == queue_status_error
    || i.status == queue_status_cancelled

abbrev pub queue_status_for : String → String
queue_status_for status = if status == status_error then queue_status_error else queue_status_done

abbrev pub finalized : QueueItem → ValidationOutcome → Results.NewResult
finalized item o = record {
  run_id = item.run_id;
  queue_id = item.queue_id;
  datasource_id = item.datasource_id;
  platform_id = item.platform_id;
  status = o.status;
  result_count = o.result_count;
  query_hash = item.query_hash;
  query_version = item.query_version;
  error_message = o.error_message;
}

abbrev pub oldest_first : ValidationRun → ValidationRun → Bool
oldest_first a b = leb a.created_time b.created_time

abbrev pub or_search : List QueueItem → Action (Option QueueItem) → Action (Option QueueItem)
or_search [] rest = rest
or_search (i ∷ _) rest = pure (some i)

unfoldable pub first_queued : List ValidationRun → Action (Option QueueItem)
unfolding Queue.list_for_run ◌>>=◌
first_queued [] = pure none
first_queued (run ∷ runs) = do
  queued ← Queue.list_for_run run.run_id (some queue_status_queued)
  or_search queued (first_queued runs)

unfoldable pub find_next_queued : Action (Option QueueItem)
unfolding Runs.list first_queued ◌>>=◌
find_next_queued = do
  runs ← Runs.list none none
  first_queued (sort oldest_first (keep (λ r. r.status == run_status_running) runs))

module _ (w : World) where
  -- `create_run` from the selection on.
  unfoldable pub start_run : String → String → List DataSource → Action ValidationRun
  unfolding queue_items Runs.create Queue.create_batch DataSources.update_status for_each ◌>>=◌
  start_run created_by trigger_type selected = do
    run ← Runs.create w created_by trigger_type (length selected)
    Queue.create_batch w run.run_id (queue_items 0 selected)
    for_each selected λ ds.
        DataSources.update_status w ds.datasource_id status_queued none (some run.run_id) >> pure tt
    pure run

  unfoldable pub create_run : String → String → Option (List String) → Action ValidationRun
  unfolding Platforms.list DataSources.list select by_sort_key start_run ◌>>=◌
  create_run created_by trigger_type datasource_ids = do
    platforms ← Platforms.list false
    all_datasources ← DataSources.list none false
    let selected = select platforms datasource_ids all_datasources
    if is_nil selected
        then raise value_error
        else start_run created_by trigger_type (sort (by_sort_key platforms) selected)

  -- The run itself is cancelled only if none of its items is in flight.
  unfoldable pub cancel_unless_running : ValidationRun → String → Action ValidationRun
  unfolding Queue.list_for_run Runs.cancel ◌>>=◌
  cancel_unless_running run run_id = do
    still_running ← Queue.list_for_run run_id (some queue_status_running)
    if is_nil still_running then (Runs.cancel w run_id >> pure run) else pure run

  -- `cancel_run` for a run that is there.
  unfoldable pub cancel_found : ValidationRun → String → Action ValidationRun
  unfolding Queue.cancel_queued_for_run Queue.list_for_run DataSources.update_status
      cancel_unless_running for_each ◌>>=◌
  cancel_found run run_id = do
    Queue.cancel_queued_for_run w run_id
    items ← Queue.list_for_run run_id (some queue_status_cancelled)
    for_each items
        λ i. DataSources.update_status w i.datasource_id status_cancelled none none >> pure tt
    if run.status == run_status_running then cancel_unless_running run run_id else pure run

  abbrev cancel_if_found : Option ValidationRun → String → Action ValidationRun
  cancel_if_found none run_id = raise not_found
  cancel_if_found (some run) run_id = cancel_found run run_id

  unfoldable pub cancel_run : String → Action ValidationRun
  unfolding Runs.get cancel_found ◌>>=◌
  cancel_run run_id = do run ← Runs.get run_id; cancel_if_found run run_id

  abbrev complete_if_running : Option ValidationRun → String → Action (Unit {0})
  complete_if_running none run_id = pure tt
  complete_if_running (some run) run_id =
      if run.status == run_status_running
      then (Runs.mark_completed w run_id >> pure tt)
      else pure tt

  unfoldable pub advance_run_progress : String → Action (Unit {0})
  unfolding Queue.list_for_run Runs.set_progress Runs.get Runs.mark_completed ◌>>=◌
  advance_run_progress run_id = do
    items ← Queue.list_for_run run_id none
    let completed = tally is_finished items
    Runs.set_progress run_id completed
    if not (is_nil items) && leb (length items) completed
        then (do run ← Runs.get run_id; complete_if_running run run_id)
        else pure tt

  unfoldable pub finalize : QueueItem → ValidationOutcome → Action (Unit {0})
  unfolding Queue.mark_done utcnow Results.create DataSources.update_status advance_run_progress
      ◌>>=◌
  finalize item o = do
    Queue.mark_done w item.queue_id (queue_status_for o.status)
    now ← utcnow w
    Results.create w (finalized item o) (some now)
    DataSources.update_status w item.datasource_id o.status (some now) (some item.run_id)
    advance_run_progress item.run_id
