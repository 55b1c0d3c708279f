-- ===== src/Models/Queue.antt =====
-- The record and the status names of bin/app/models/validation_queue.py.
use app_datasource_validator.Prelude.{ℕ, String, Option}

abbrev pub queue_status_queued : String
queue_status_queued = "QUEUED"

abbrev pub queue_status_running : String
queue_status_running = "RUNNING"

abbrev pub queue_status_done : String
queue_status_done = "DONE"

abbrev pub queue_status_error : String
queue_status_error = "ERROR"

abbrev pub queue_status_cancelled : String
queue_status_cancelled = "CANCELLED"

pub record QueueItem : Type 0 where
  pub queue_id : String
  pub run_id : String
  pub platform_id : String
  pub datasource_id : String
  pub order_index : ℕ
  pub status : String
  pub query_hash : String
  pub query_version : ℕ
  pub sid : Option String
  pub dispatched_time : Option ℕ
  pub completed_time : Option ℕ
