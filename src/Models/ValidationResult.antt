-- ===== src/Models/ValidationResult.antt =====
-- The record of bin/app/models/validation_result.py.
use app_datasource_validator.Prelude.{ℕ, String, Option}
use app_datasource_validator.Text.{Text}
use app_datasource_validator.Query.{Reason}

-- The texts that become `error_message`, one constructor for each place that makes one: the
-- validator's reason, a dispatch that raised, the stuck-job timeout, the messages of a failed job.
pub data ErrorMessage : Type 0 where
  rejected : Reason → ErrorMessage
  dispatch_failed : ErrorMessage
  stuck_job : ℕ → ErrorMessage
  job_failed : Text → ErrorMessage

pub record ValidationResult : Type 0 where
  pub result_id : String
  pub run_id : String
  pub queue_id : String
  pub datasource_id : String
  pub platform_id : String
  pub status : String
  pub result_count : ℕ
  pub query_hash : String
  pub query_version : ℕ
  pub executed_time : ℕ
  pub duration_ms : ℕ
  pub error_message : Option ErrorMessage
