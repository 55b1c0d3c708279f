-- ===== src/Executor.antt =====
-- bin/search_executor.py: validate and dispatch a search, poll it, cancel it. The job client is the
-- platform's REST interface, so its answers are functions given to the executor.
pub mod Safety
use app_datasource_validator.Prelude.{
  ℕ, suc, ℤ, String, Bool, true, false, not, Option, none, some, List, [], ◌∷◌, ◌++◌, map, ltb,
  take, is_nil, if◌then◌else◌,
}
use app_datasource_validator.Json.{Json}
use app_datasource_validator.Text.{Text, codes}
use app_datasource_validator.Query.{QueryValidator, QueryValidationResult, validate}
use app_datasource_validator.Exec.{
  Error, Result, ok, err, Exec, pure, raise, lift, modify, ◌>>=◌, ◌>>◌,
}
use app_datasource_validator.Models.DataSource.{status_pass, status_fail, status_error}
use app_datasource_validator.Models.ValidationResult.{
  ErrorMessage, rejected, dispatch_failed, job_failed,
}
use app_datasource_validator.Stores.{Stores, Action, JobCall, dispatched, cancelled}

-- A message of a job: a dictionary with a text, or anything else, printed by `str`.
pub data Message : Type 0 where
  with_text : Text → Message
  printed : Text → Message

pub record JobStatus : Type 0 where
  pub is_done : Bool
  pub is_failed : Bool
  pub result_count : ℕ
  pub messages : List Message

pub record JobClient : Type 0 where
  pub dispatch : Text → Json → Json → ℤ → Result String
  pub poll : Option String → Result JobStatus
  pub cancel : Option String → Result (Unit {0})

pub record SearchExecutor : Type 0 where
  pub query_validator : QueryValidator
  pub job_client : JobClient
  pub earliest_time : Json
  pub latest_time : Json
  pub max_time_sec : ℤ

abbrev pub default_stuck_job_timeout_sec : ℕ
default_stuck_job_timeout_sec = 300

pub record DispatchResult : Type 0 where
  pub allowed : Bool
  pub sid : Option String
  pub executable_query : Option Text
  pub reason : Option ErrorMessage

pub record ValidationOutcome : Type 0 where
  pub status : String
  pub result_count : ℕ
  pub error_message : Option ErrorMessage

abbrev pub refused : ErrorMessage → DispatchResult
refused m = record { allowed = false; sid = none; executable_query = none; reason = some m }

-- `except Exception` turns a failed dispatch into a refusal.
abbrev pub dispatch_reply : Text → Result String → DispatchResult
dispatch_reply query (err e) = refused dispatch_failed
dispatch_reply query (ok sid) = record {
  allowed = true;
  sid = some sid;
  executable_query = some query;
  reason = none;
}

unfoldable pub record_call : JobCall → Action (Unit {0})
record_call c s = (ok tt, record s { job_calls = s.job_calls ++ c ∷ [] })

module _ (x : SearchExecutor) where
  abbrev pub send : QueryValidationResult → Action DispatchResult
  send v = if not v.allowed then pure (refused (rejected v.reason)) else do
    record_call (dispatched v.executable_query)
    pure (
        dispatch_reply v.executable_query
          (x.job_client.dispatch v.executable_query x.earliest_time x.latest_time x.max_time_sec))

  unfoldable pub dispatch : String → Bool → Action DispatchResult
  unfolding record_call ◌>>=◌
  dispatch spl_query is_admin = send (validate x.query_validator (codes spl_query) is_admin)

abbrev pub message_text : Message → Text
message_text (with_text t) = t
message_text (printed t) = t

-- `"; ".join(texts)`
unfoldable pub join_messages : List Text → Text
join_messages [] = []
join_messages (t ∷ []) = t
join_messages (t ∷ u ∷ ts) = t ++ codes "; " ++ join_messages (u ∷ ts)

unfoldable pub summarize_messages : List Message → Text
unfolding join_messages
summarize_messages messages = take 2000 (join_messages (map message_text messages))

abbrev pub error_text : Text → Text
error_text [] = codes "search job failed"
error_text (c ∷ s) = c ∷ s

abbrev pub outcome_status : ℕ → String
outcome_status n = if ltb 0 n then status_pass else status_fail

-- None while the job is running.
unfoldable pub classify : JobStatus → Option ValidationOutcome
unfolding summarize_messages
classify status =
    if not status.is_done
    then none
    else if status.is_failed
    then some (record {
      status = status_error;
      result_count = 0;
      error_message = some (job_failed (error_text (summarize_messages status.messages)));
    })
    else some (record {
      status = outcome_status status.result_count;
      result_count = status.result_count;
      error_message = none;
    })

module _ (x : SearchExecutor) where
  unfoldable pub poll : Option String → Action (Option ValidationOutcome)
  unfolding classify ◌>>=◌
  poll sid = do status ← lift (x.job_client.poll sid); pure (classify status)

  unfoldable pub cancel : Option String → Action (Unit {0})
  unfolding record_call ◌>>=◌
  cancel sid = do record_call (cancelled sid); lift (x.job_client.cancel sid)
