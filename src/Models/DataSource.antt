-- ===== src/Models/DataSource.antt =====
-- The record and the status names of bin/app/models/datasource.py.
-- A timestamp is its number of milliseconds since the epoch: `utcnow_iso` writes milliseconds.
use app_datasource_validator.Prelude.{ℕ, ℤ, String, Bool, Option}

abbrev pub status_not_run : String
status_not_run = "NOT RUN"

abbrev pub status_queued : String
status_queued = "QUEUED"

abbrev pub status_running : String
status_running = "RUNNING"

abbrev pub status_pass : String
status_pass = "PASS"

abbrev pub status_fail : String
status_fail = "FAIL"

abbrev pub status_error : String
status_error = "ERROR"

abbrev pub status_cancelled : String
status_cancelled = "CANCELLED"

pub record DataSource : Type 0 where
  pub datasource_id : String
  pub platform_id : String
  pub name : String
  pub spl_query : String
  pub description : String
  pub query_hash : String
  pub query_version : ℕ
  pub sort_order : ℤ
  pub enabled : Bool
  pub stale_threshold_sec : Option ℤ
  pub current_status : String
  pub last_result_time : Option ℕ
  pub last_run_id : Option String
  pub created_time : Option ℕ
  pub updated_time : Option ℕ
