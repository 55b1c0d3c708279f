-- ===== src/Models/Run.antt =====
-- The record and the status names of bin/app/models/validation_run.py.
use app_datasource_validator.Prelude.{ℕ, String, Option}

abbrev pub run_status_running : String
run_status_running = "RUNNING"

abbrev pub run_status_completed : String
run_status_completed = "COMPLETED"

abbrev pub run_status_cancelled : String
run_status_cancelled = "CANCELLED"

pub record ValidationRun : Type 0 where
  pub run_id : String
  pub created_time : ℕ
  pub created_by : String
  pub trigger_type : String
  pub status : String
  pub total_items : ℕ
  pub completed_items : ℕ
  pub completed_time : Option ℕ
