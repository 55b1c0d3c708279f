-- ===== src/Controller/Frame/Operations.antt =====
-- The operations of the stores, the controller and the executor that leave the queue as it is.
use app_datasource_validator.Prelude.{ℕ, String, refl, Bool, Option, none, some, List, [], ◌∷◌}
use app_datasource_validator.Exec.Keeps.{Keeps, Keeps-bind}
use app_datasource_validator.Models.Run.{ValidationRun}
use app_datasource_validator.Models.Queue.{QueueItem, queue_status_queued}
use app_datasource_validator.Models.WorkerLease.{WorkerLease}
use app_datasource_validator.Stores.{World, Stores, Action, JobCall}
use app_datasource_validator.Stores.DataSources
use app_datasource_validator.Stores.Platforms
use app_datasource_validator.Stores.Queue
use app_datasource_validator.Stores.Runs
use app_datasource_validator.Stores.Results
use app_datasource_validator.Stores.Leases
use app_datasource_validator.Executor
use app_datasource_validator.Executor.{SearchExecutor}
use app_datasource_validator.Controller.{
  advance_run_progress, complete_if_running, find_next_queued, first_queued, or_search,
}
use app_datasource_validator.Controller.Tick.{check_stuck}
use app_datasource_validator.Controller.Frame.{Framed, Framed-still, framed_rules}

module _ {P : Stores → Type 0} (f : Framed P) (w : World) where
  pub or_search-Keeps :
      (found : List QueueItem) (rest : Action (Option QueueItem))
      → Keeps P rest
      → Keeps P (or_search found rest)
  or_search-Keeps [] rest k = k
  or_search-Keeps (i ∷ _) rest k = search framed_rules

  pub update_status-Keeps :
      (id status : String) (t : Option ℕ) (r : Option String)
      → Keeps P (DataSources.update_status w id status t r)
  unfolding DataSources.update_status
  update_status-Keeps id status t r = search framed_rules

  pub list_for_run-Keeps :
      (run_id : String) (status : Option String) → Keeps P (Queue.list_for_run run_id status)
  unfolding Queue.list_for_run
  list_for_run-Keeps run_id status = search framed_rules

  pub set_progress-Keeps : (id : String) (k : ℕ) → Keeps P (Runs.set_progress id k)
  unfolding Runs.set_progress
  set_progress-Keeps id k = search framed_rules

  pub run_create-Keeps : (by trigger : String) (k : ℕ) → Keeps P (Runs.create w by trigger k)
  unfolding Runs.create
  run_create-Keeps by trigger k = search framed_rules

  pub run_get-Keeps : (id : String) → Keeps P (Runs.get id)
  unfolding Runs.get
  run_get-Keeps id = search framed_rules

  pub run_list-Keeps : (s : Option String) (k : Option ℕ) → Keeps P (Runs.list s k)
  unfolding Runs.list
  run_list-Keeps s k = search framed_rules

  pub mark_completed-Keeps : (id : String) → Keeps P (Runs.mark_completed w id)
  unfolding Runs.mark_completed
  mark_completed-Keeps id = search framed_rules

  pub run_cancel-Keeps : (id : String) → Keeps P (Runs.cancel w id)
  unfolding Runs.cancel
  run_cancel-Keeps id = search framed_rules

  pub now_or-Keeps : (t : Option ℕ) → Keeps P (Results.now_or w t)
  now_or-Keeps none = search framed_rules
  now_or-Keeps (some t) = search framed_rules

  pub result_create-Keeps : (r : Results.NewResult) (t : Option ℕ) → Keeps P (Results.create w r t)
  unfolding Results.create
  result_create-Keeps r t = search (framed_rules, now_or-Keeps)

  pub complete-Keeps :
      (run : Option ValidationRun) (id : String) → Keeps P (complete_if_running w run id)
  complete-Keeps none id = search framed_rules
  complete-Keeps (some run) id = search (framed_rules, mark_completed-Keeps)

  pub advance-Keeps : (id : String) → Keeps P (advance_run_progress w id)
  unfolding advance_run_progress
  advance-Keeps id =
      search (framed_rules, list_for_run-Keeps, set_progress-Keeps, complete-Keeps) depth 8

  pub platform_list-Keeps : (b : Bool) → Keeps P (Platforms.list b)
  unfolding Platforms.list
  platform_list-Keeps b = search framed_rules

  pub datasource_list-Keeps : (p : Option String) (b : Bool) → Keeps P (DataSources.list p b)
  unfolding DataSources.list
  datasource_list-Keeps p b = search framed_rules

  pub first_queued-Keeps : (runs : List ValidationRun) → Keeps P (first_queued runs)
  unfolding first_queued
  first_queued-Keeps [] = search framed_rules
  first_queued-Keeps (r ∷ runs) =
      Keeps-bind _ _ (list_for_run-Keeps r.run_id (some queue_status_queued))
        (λ q. or_search-Keeps q _ (first_queued-Keeps runs))

  pub find_next-Keeps : Keeps P (find_next_queued)
  unfolding find_next_queued
  find_next-Keeps = search (framed_rules, run_list-Keeps, first_queued-Keeps)

  pub record_call-Keeps : (c : JobCall) → Keeps P (Executor.record_call c)
  unfolding Executor.record_call
  record_call-Keeps c = Framed-still f (Executor.record_call c) (λ s. refl)

  pub dispatch-Keeps :
      (x : SearchExecutor) (q : String) (b : Bool) → Keeps P (Executor.dispatch x q b)
  unfolding Executor.dispatch
  dispatch-Keeps x q b = search (framed_rules, record_call-Keeps) depth 8

  pub poll-Keeps : (x : SearchExecutor) (sid : Option String) → Keeps P (Executor.poll x sid)
  unfolding Executor.poll
  poll-Keeps x sid = search framed_rules

  pub cancel-Keeps : (x : SearchExecutor) (sid : Option String) → Keeps P (Executor.cancel x sid)
  unfolding Executor.cancel
  cancel-Keeps x sid = search (framed_rules, record_call-Keeps)

  pub get-Keeps : (id : String) → Keeps P (DataSources.get id)
  unfolding DataSources.get
  get-Keeps id = search framed_rules

  pub check_stuck-Keeps :
      (x : SearchExecutor) (t : ℕ) (item : QueueItem) (d : Option ℕ)
      → Keeps P (check_stuck w x t item d)
  check_stuck-Keeps x t item none = search framed_rules
  check_stuck-Keeps x t item (some d) = search framed_rules

  pub store_lease-Keeps :
      (e : Option WorkerLease) (l : WorkerLease) → Keeps P (Leases.store_lease e l)
  store_lease-Keeps none l = search framed_rules
  store_lease-Keeps (some _) l = search framed_rules

  pub try_acquire-Keeps : (owner : String) (ttl : ℕ) → Keeps P (Leases.try_acquire w owner ttl)
  unfolding Leases.try_acquire
  try_acquire-Keeps owner ttl = search (framed_rules, store_lease-Keeps) depth 9
