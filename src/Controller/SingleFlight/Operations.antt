-- ===== src/Controller/SingleFlight/Operations.antt =====
-- No operation of the controller but a dispatch adds a RUNNING item to the queue.
use app_datasource_validator.Prelude.{
  ℕ, String, ◌==◌, ◌≡◌, refl, Bool, false, true, Option, none, some, List, [], ◌∷◌, if◌then◌else◌,
}
use app_datasource_validator.Exec.Keeps.{Keeps, Keeps-bind, Keeps-pure}
use app_datasource_validator.Models.DataSource.{DataSource, status_error}
use app_datasource_validator.Models.Run.{ValidationRun}
use app_datasource_validator.Models.Queue.{
  QueueItem, queue_status_running, queue_status_done, queue_status_error,
}
use app_datasource_validator.Stores.{World}
use app_datasource_validator.Stores.Queue
use app_datasource_validator.Stores.Queue.{NewItem}
use app_datasource_validator.Executor.{ValidationOutcome}
use app_datasource_validator.Controller.{
  finalize, queue_status_for, cancel_if_found, create_run, start_run, cancel_run, cancel_found,
  cancel_unless_running,
}
use app_datasource_validator.Controller.Frame.{framed_rules}
use app_datasource_validator.Controller.Frame.Operations.{
  update_status-Keeps, list_for_run-Keeps, run_create-Keeps, run_cancel-Keeps, result_create-Keeps,
  advance-Keeps, platform_list-Keeps, datasource_list-Keeps,
}
use app_datasource_validator.Controller.SingleFlight.Frame.{
  AtMost, AtMost-Framed, AtMost-insert_item, AtMost-update_item,
}

pub ruleset frame_rules = (framed_rules, AtMost-Framed)

either_idle :
    (b : Bool)
    → ((if b then queue_status_error else queue_status_done) == queue_status_running) ≡ false
either_idle true = refl
either_idle false = refl

queue_status-idle : (s : String) → (queue_status_for s == queue_status_running) ≡ false
queue_status-idle s = either_idle (s == status_error)

module _ {n : ℕ} (w : World) where
  pub mark_done-AtMost :
      (id status : String)
      → (status == queue_status_running) ≡ false
      → Keeps (AtMost n) (Queue.mark_done w id status)
  unfolding Queue.mark_done
  mark_done-AtMost id status idle = search (frame_rules, AtMost-update_item, idle)

  pub finalize-AtMost :
      (item : QueueItem) (o : ValidationOutcome) → Keeps (AtMost n) (finalize w item o)
  unfolding finalize
  finalize-AtMost item o =
      search
        (
          frame_rules, mark_done-AtMost, queue_status-idle, result_create-Keeps,
          update_status-Keeps, advance-Keeps,
        )
        depth 8

  create_one-AtMost :
      (run_id : String) (item : NewItem) → Keeps (AtMost n) (Queue.create_one w run_id item)
  unfolding Queue.create_one
  create_one-AtMost run_id item = search (frame_rules, AtMost-insert_item)

  create_each-AtMost :
      (run_id : String) (items : List NewItem) → Keeps (AtMost n) (Queue.create_each w run_id items)
  unfolding Queue.create_each
  create_each-AtMost run_id [] = search frame_rules
  create_each-AtMost run_id (i ∷ items) =
      Keeps-bind _ _ (create_one-AtMost run_id i)
        (λ qi. Keeps-bind _ _ (create_each-AtMost run_id items) (λ rest. Keeps-pure _))

  create_batch-AtMost :
      (run_id : String) (items : List NewItem)
      → Keeps (AtMost n) (Queue.create_batch w run_id items)
  unfolding Queue.create_batch
  create_batch-AtMost run_id items = create_each-AtMost run_id _

  start_run-AtMost :
      (by trigger : String) (selected : List DataSource)
      → Keeps (AtMost n) (start_run w by trigger selected)
  unfolding start_run
  start_run-AtMost by trigger selected =
      search (frame_rules, run_create-Keeps, create_batch-AtMost, update_status-Keeps) depth 9

  pub create_run-AtMost :
      (by trigger : String) (ids : Option (List String))
      → Keeps (AtMost n) (create_run w by trigger ids)
  unfolding create_run
  create_run-AtMost by trigger ids =
      search (frame_rules, platform_list-Keeps, datasource_list-Keeps, start_run-AtMost) depth 9

  cancel_queued-AtMost : (run_id : String) → Keeps (AtMost n) (Queue.cancel_queued_for_run w run_id)
  unfolding Queue.cancel_queued_for_run
  cancel_queued-AtMost run_id = search (frame_rules, list_for_run-Keeps, mark_done-AtMost) depth 8

  cancel_unless-AtMost :
      (run : ValidationRun) (id : String) → Keeps (AtMost n) (cancel_unless_running w run id)
  unfolding cancel_unless_running
  cancel_unless-AtMost run id = search (frame_rules, list_for_run-Keeps, run_cancel-Keeps) depth 8

  cancel_found-AtMost :
      (run : ValidationRun) (id : String) → Keeps (AtMost n) (cancel_found w run id)
  unfolding cancel_found
  cancel_found-AtMost run id =
      search
        (
          frame_rules, cancel_queued-AtMost, list_for_run-Keeps, update_status-Keeps,
          cancel_unless-AtMost,
        )
        depth 9

  cancel_if-AtMost :
      (run : Option ValidationRun) (id : String) → Keeps (AtMost n) (cancel_if_found w run id)
  cancel_if-AtMost none id = search frame_rules
  cancel_if-AtMost (some run) id = cancel_found-AtMost run id

  pub cancel_run-AtMost : (id : String) → Keeps (AtMost n) (cancel_run w id)
  unfolding cancel_run
  cancel_run-AtMost id = search (frame_rules, cancel_if-AtMost)
