-- ===== src/Rest/QueryTest.antt =====
-- bin/rest_query.py: the test of a query, which waits for its search.
pub mod Waiting
use app_datasource_validator.Prelude.{
  ℕ, zero, suc, ◌+◌, ltb, ℤ, pos, String, ◌==◌, Bool, true, false, not, Option, none, some,
  if◌then◌else◌,
}
use app_datasource_validator.Text.{Text}
use app_datasource_validator.Json.{Json, text}
use app_datasource_validator.Exec.{
  Error, Result, ok, err, value_error, rest_error, pure, raise, lift, ◌>>=◌, ◌>>◌,
}
use app_datasource_validator.Models.ValidationResult.{ErrorMessage}
use app_datasource_validator.SplunkClient.{Server, Reply, replied, failed, crashed, login}
use app_datasource_validator.Security.Credentials.{Credential}
use app_datasource_validator.Executor
use app_datasource_validator.Executor.{SearchExecutor, DispatchResult, JobStatus, ValidationOutcome}
use app_datasource_validator.Stores.{Action}
use app_datasource_validator.App.{App, Step, Platform, on_stores, service_credential, executor_for}
use app_datasource_validator.Worker.{default_earliest_time, default_latest_time}

abbrev pub max_wait_sec : ℕ
max_wait_sec = 25

abbrev pub test_max_time_sec : ℤ
test_max_time_sec = pos 30

-- In seconds, as `max_wait_sec`.
abbrev pub poll_interval_sec : ℕ
poll_interval_sec = 1

-- What the search head says of a job, given the seconds that were waited and the job's identifier.
abbrev pub Progress : Type 0
Progress = ℕ → Option String → Result JobStatus

module _ (x : SearchExecutor) (progress : Progress) where
  -- The executor as it meets the search head then.
  abbrev pub executor_at : ℕ → SearchExecutor
  executor_at waited = record x {
    job_client = record x.job_client { poll = λ sid. progress waited sid };
  }

  abbrev pub or_wait :
      Option ValidationOutcome
      → Action (Option ValidationOutcome)
      → Action (Option ValidationOutcome)
  or_wait none later = later
  or_wait (some o) later = pure (some o)

  -- `_wait_for_outcome`: `fuel` bounds the rounds of the loop.
  unfoldable pub wait_for_outcome : Option String → ℕ → ℕ → Action (Option ValidationOutcome)
  unfolding Executor.poll ◌>>=◌
  wait_for_outcome sid zero waited = pure none
  wait_for_outcome sid (suc fuel) waited =
      let later = wait_for_outcome sid fuel (waited + poll_interval_sec) in
      if ltb waited max_wait_sec
      then (do outcome ← Executor.poll (executor_at waited) sid; or_wait outcome later)
      else pure none

pub data Tested : Type 0 where
  refused : Option ErrorMessage → Tested
  timed_out : Tested
  tested : ValidationOutcome → Tested

-- `_is_admin_payload`
abbrev pub is_admin_payload : Bool
is_admin_payload = false

module _ (p : Platform) (progress : Progress) where
  abbrev pub with_outcome : SearchExecutor → Option String → Option ValidationOutcome → Step Tested
  with_outcome x sid none = on_stores (Executor.cancel x sid) >> pure timed_out
  with_outcome x sid (some o) = pure (tested o)

  abbrev pub dispatched_test : SearchExecutor → DispatchResult → Step Tested
  dispatched_test x r = if not r.allowed then pure (refused r.reason) else do
    outcome ← on_stores (wait_for_outcome x progress r.sid max_wait_sec 0)
    with_outcome x r.sid outcome

  abbrev pub test_with : String → SearchExecutor → Step Tested
  test_with spl_query x = do
    r ← on_stores (Executor.dispatch x spl_query is_admin_payload)
    dispatched_test x r

  abbrev pub or_default : Option Json → Json → Json
  or_default none default = default
  or_default (some v) default = v

  abbrev pub signed_in : String → Option Json → Option Json → Reply Json → Step Tested
  signed_in q earliest latest (replied key) = test_with q (
      executor_for p key (or_default earliest default_earliest_time)
        (or_default latest default_latest_time) test_max_time_sec)
  signed_in q earliest latest (failed status) = raise value_error
  signed_in q earliest latest crashed = raise rest_error

  abbrev pub with_credential : String → Option Json → Option Json → Option Credential → Step Tested
  with_credential q earliest latest none = raise value_error
  with_credential q earliest latest (some c) =
      signed_in q earliest latest (login p.server c.username c.clear_password)

  -- How the search goes on is given; a query that is absent stands as the empty one.
  unfoldable pub test_query : String → Option Json → Option Json → Step Tested
  unfolding service_credential login on_stores Executor.dispatch Executor.cancel wait_for_outcome
      executor_for raise lift ◌>>=◌
  test_query spl_query earliest latest =
      if spl_query == ""
      then raise value_error
      else do credential ← service_credential; with_credential spl_query earliest latest credential
