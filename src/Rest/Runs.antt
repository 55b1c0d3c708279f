-- ===== src/Rest/Runs.antt =====
-- bin/rest_validation.py: the handlers of runs, of the queue and of results. A limit is a number.
use app_datasource_validator.Prelude.{
  ℕ, String, ◌==◌, Option, none, some, List, [], ◌∷◌, if◌then◌else◌,
}
use app_datasource_validator.Exec.{value_error, pure, raise, ◌>>=◌}
use app_datasource_validator.Models.Queue.{QueueItem, queue_status_queued}
use app_datasource_validator.Models.Run.{ValidationRun}
use app_datasource_validator.Models.ValidationResult.{ValidationResult}
use app_datasource_validator.Stores.{World, Action}
use app_datasource_validator.Stores.Queue
use app_datasource_validator.Stores.Runs
use app_datasource_validator.Stores.Results
use app_datasource_validator.Controller.{create_run, cancel_run}
use app_datasource_validator.Rest.{found, path_id}

-- `x if x else None`: the empty text is falsy.
abbrev truthy : Option String → Option String
truthy none = none
truthy (some s) = if s == "" then none else some s

abbrev user_or_unknown : Option String → String
user_or_unknown none = "unknown"
user_or_unknown (some u) = if u == "" then "unknown" else u

-- An empty list of data sources stands for all of them.
abbrev requested : Option (List String) → Option (List String)
requested none = none
requested (some []) = none
requested (some (i ∷ ids)) = some (i ∷ ids)

unfoldable pub get_runs : Option String → Option ℕ → Action (List ValidationRun)
unfolding Runs.list
get_runs status limit = Runs.list (truthy status) limit

unfoldable pub post_run :
    World → Option String → String → Option (List String) → Action ValidationRun
unfolding create_run
post_run w user trigger_type datasource_ids =
    create_run w (user_or_unknown user) trigger_type (requested datasource_ids)

unfoldable pub get_run : Option String → Action (ValidationRun × List QueueItem)
unfolding Runs.get Queue.list_for_run ◌>>=◌
get_run path = do
  run_id ← path_id path
  existing ← Runs.get run_id
  run ← found existing
  items ← Queue.list_for_run run_id none
  pure (run, items)

unfoldable pub cancel_handler : World → Option String → Action ValidationRun
unfolding cancel_run ◌>>=◌
cancel_handler w path = do run_id ← path_id path; cancel_run w run_id

-- The queue of one run, or the item in flight with the number of items that wait.
pub data QueueView : Type 0 where
  of_run : String → List QueueItem → QueueView
  overall : Option QueueItem → ℕ → QueueView

abbrev queue_view : Option String → Action QueueView
queue_view none = do
  in_flight ← Queue.find_any_running
  depth ← Queue.count_global_status queue_status_queued
  pure (overall in_flight depth)
queue_view (some run_id) = do items ← Queue.list_for_run run_id none; pure (of_run run_id items)

unfoldable pub get_queue : Option String → Action QueueView
unfolding Queue.list_for_run Queue.find_any_running Queue.count_global_status ◌>>=◌
get_queue run_id = queue_view (truthy run_id)

abbrev results_for : Option String → Option String → Option ℕ → Action (List ValidationResult)
results_for none none limit = raise value_error
results_for none (some run_id) limit = Results.list_for_run run_id
results_for (some datasource_id) run limit = Results.list_for_datasource datasource_id limit

unfoldable pub get_results :
    Option String → Option String → Option ℕ → Action (List ValidationResult)
unfolding Results.list_for_run Results.list_for_datasource
get_results datasource_id run_id limit = results_for (truthy datasource_id) (truthy run_id) limit
