-- ===== src/Controller/Tests.antt =====
-- The controller and its parts on concrete stores.
mod Samples
use app_datasource_validator.Prelude.{
  ℕ, suc, ◌+◌, ◌*◌, ◌<◌, ◌≤◌, ℤ, pos, String, eq_iff, ◌≡◌, refl, ap, sym, ◌≢◌, ◌↔◌, ◌⊎◌, inl, inr,
  Bool, true, false, Option, none, some, List, [], ◌∷◌, ◌++◌, arith, is_nil,
}
use mathlib.Core.Option
use app_datasource_validator.Text.{Text, codes, strip, ascii_lower}
use app_datasource_validator.Query.{ParseReply, parsed, parsed_search, default_validator, validate}
use app_datasource_validator.Kv.{Collection, find, replace, docs, remove}
use app_datasource_validator.Exec.{Result, ok, err, not_found, rest_error}
use app_datasource_validator.Exec.Keeps.{Keeps}
use app_datasource_validator.Models.DataSource.{DataSource, status_pass, status_running}
use app_datasource_validator.Models.Platform.{Platform}
use app_datasource_validator.Models.Queue.{
  QueueItem, queue_status_running, queue_status_queued, queue_status_cancelled,
}
use app_datasource_validator.Models.Run.{ValidationRun, run_status_running, run_status_completed}
use app_datasource_validator.Models.WorkerLease.{WorkerLease, lease_id, is_expired}
use app_datasource_validator.Stores.{World, Stores, utcnow, dispatched}
use app_datasource_validator.Stores
use app_datasource_validator.Models.ValidationResult.{dispatch_failed, stuck_job}
use app_datasource_validator.Executor.Safety.{IsGuarded, dispatch_lem}
use app_datasource_validator.Stores.DataSources
use app_datasource_validator.Stores.Queue
use app_datasource_validator.Stores.Leases
use app_datasource_validator.Stores.Leases.Exclusion.{
  clock_read, lease_in, heartbeat-other, lease_excludes,
}
use app_datasource_validator.Executor.{
  SearchExecutor, JobClient, ValidationOutcome, JobStatus, dispatch, poll, classify, refused,
  dispatch_reply,
}
use app_datasource_validator.Controller.{
  create_run, cancel_run, finalize, advance_run_progress, find_next_queued,
}
use app_datasource_validator.Controller.Tests.Samples.{
  world, client, parser, executor, linux, syslog, fresh, busy_item, active_run, busy, orphaned,
  pass, lease, leased,
}
use app_datasource_validator.Controller.Closed.Ticks.{closed-stays}
use app_datasource_validator.Controller.Stuck.{given_up, run_tick-unsticks}
use app_datasource_validator.Controller.Tick.{run_tick, dispatch_next}
use app_datasource_validator.Controller.Progress.{Advanced, advance_run_progress_lem}
use app_datasource_validator.Controller.Finalize.{
  Finalized, finalize_lem, finalize-deleted, recorded,
}
use app_datasource_validator.Controller.Edits.{
  finalize-after_edit, cancel_run-unchanged, Dropped, dispatch_next-drops,
}
use app_datasource_validator.Controller.Effects.{run_tick-excluded}
use app_datasource_validator.Controller.SingleFlight.{running, AtMost}
use app_datasource_validator.Controller.SingleFlight.Ticks.{run_tick-AtMost}
use app_datasource_validator.Controller.SingleFlight.History.{
  Call, created, cancelled, ticked, after, Reach, start, next, Reach-AtMost,
}

program : Unit {0}
unfolding create_run cancel_run run_tick finalize advance_run_progress dispatch_next dispatch
    find_next_queued validate default_validator parsed_search ascii_lower find replace docs remove
    Leases.held_by_other DataSources.update_query Leases.try_acquire after
program = tt

-- The run whose only item waits.
abbrev idle : Stores
idle = record busy { queue = ("q1", record busy_item { status = queue_status_queued }) ∷ [] }

-- A run is created, its item is dispatched, and the next tick records a pass and completes the run.
abbrev create : Call
create = created world "admin" "manual" none

abbrev tick : Call
tick = ticked world executor 300 "sh1" 30 false

abbrev finished : Stores
finished = after tick (after tick (after create fresh))

full_run :
    (find "syslog" finished.datasources
      ≡ some (record syslog {
        current_status = status_pass;
        last_result_time = some 8000;
        last_run_id = some "run";
        updated_time = some 9000;
      }))
    × (Option.map (λ (r : ValidationRun). r.status) (find "run" finished.runs)
        ≡ some run_status_completed)
unfolding program
full_run = (refl, refl)

-- A job client whose dispatch raises.
abbrev raising : SearchExecutor
raising = record executor { job_client = record client { dispatch = λ q e l m. err rest_error } }

raised_dispatch_refused : dispatch raising "index=os" false fresh ≡ (
  ok (record {
    allowed = false;
    sid = none;
    executable_query = none;
    reason = some dispatch_failed;
  }),
  record fresh { job_calls = dispatched (codes "index=os | head 1") ∷ [] },
)
unfolding program
raised_dispatch_refused = refl

dispatch_lem_example :
    IsGuarded raising "index=os" false fresh (dispatch raising "index=os" false fresh)
dispatch_lem_example = dispatch_lem raising "index=os" false fresh

-- The run with two items more, one cancelled and one failed.
abbrev with_cancelled : Stores
with_cancelled = record busy {
  queue =
      ("q1", busy_item)
      ∷ ("q2", record busy_item { status = "CANCELLED" })
      ∷ ("q3", record busy_item { status = "ERROR" })
      ∷ [];
}

two_are_counted :
    Option.map
      (λ (r : ValidationRun). r.completed_items)
      (find "run" (advance_run_progress world "run" with_cancelled).1.runs)
    ≡ some 2
unfolding program
two_are_counted = refl

advance_run_progress_lem_example :
    ((advance_run_progress world "run" with_cancelled).0 ≡ ok tt)
    × Advanced "run" active_run with_cancelled (advance_run_progress world "run" with_cancelled).1
unfolding program
advance_run_progress_lem_example =
    advance_run_progress_lem world "run" with_cancelled active_run refl

finalize_lem_example :
    ((finalize world busy_item pass busy).0 ≡ ok tt)
    × Finalized world busy_item busy_item pass syslog active_run busy
        (finalize world busy_item pass busy).1
unfolding program
finalize_lem_example =
    finalize_lem world busy_item pass busy busy_item refl refl syslog active_run refl refl

finalize-deleted_example :
    finalize world busy_item pass orphaned
    ≡ (err not_found, recorded world busy_item pass orphaned busy_item)
unfolding program
finalize-deleted_example = finalize-deleted world busy_item pass orphaned busy_item refl refl refl

finalize-after_edit_example :
    (d : DataSource) × (find "syslog"
        (finalize world busy_item pass
          (DataSources.update_query world (λ q. "h2") "syslog" "index=web" busy).1).1.datasources
      ≡ some d)
    × (d.spl_query ≡ "index=web")
    × (d.query_version ≡ 2)
    × (d.current_status ≡ status_pass)
unfolding program
finalize-after_edit_example =
    finalize-after_edit world world (λ q. "h2") busy_item busy_item pass "index=web" busy syslog
      active_run refl refl refl refl refl

cancel_run-unchanged_example : find "run" idle.runs ≡ some active_run
unfolding program
cancel_run-unchanged_example = cancel_run-unchanged world "run" idle active_run refl

-- The data source was disabled while its item waited.
abbrev switched_off : DataSource
switched_off = record syslog { enabled = false }

abbrev out_of_scope : Stores
out_of_scope = record idle { datasources = ("syslog", switched_off) ∷ [] }

abbrev waiting : QueueItem
waiting = record busy_item { status = queue_status_queued }

dispatch_next-drops_example :
    Dropped world waiting waiting active_run out_of_scope
      (dispatch_next world executor false out_of_scope)
unfolding program
dispatch_next-drops_example =
    dispatch_next-drops world executor false waiting waiting out_of_scope active_run refl
      (λ ds e. ap is_enabled (sym e)) refl refl
  where
    is_enabled : Option DataSource → Bool
    is_enabled none = false
    is_enabled (some ds) = ds.enabled

other_worker : ◌≢◌ {A = String} "sh2" "sh1"
other_worker e = apart ((eq_iff "sh2" "sh1").1 e)
  where
    apart : false ≡ true → ⊥
    apart h = cc

lease_excludes_example :
    Leases.try_acquire world "sh2" 30 (Leases.try_acquire world "sh1" 30 fresh).1
    ≡ (ok none, clock_read (Leases.try_acquire world "sh1" 30 fresh).1)
unfolding program
lease_excludes_example =
    lease_excludes world world "sh1" "sh2" 30 30 fresh (Leases.try_acquire world "sh1" 30 fresh).1
      other_worker refl refl (omega arith)

run_tick-excluded_example :
    run_tick world executor 300 "sh2" 30 false (Leases.try_acquire world "sh1" 30 fresh).1
    ≡ (ok tt, clock_read (Leases.try_acquire world "sh1" 30 fresh).1)
unfolding program
run_tick-excluded_example =
    run_tick-excluded world world executor 300 30 30 "sh1" "sh2" false fresh
      (Leases.try_acquire world "sh1" 30 fresh).1 other_worker refl refl (omega arith)

other_heartbeat_refused :
    (Leases.heartbeat world "sh2" 30 leased ≡ (ok none, leased))
    × (Leases.release "sh2" leased ≡ (ok false, leased))
unfolding program
other_heartbeat_refused =
    heartbeat-other world "sh2" 30 leased lease refl (λ e. other_worker (sym e))

tick_keeps_one : AtMost 1 (run_tick world executor 300 "sh1" 30 false busy).1
unfolding program
tick_keeps_one =
    (run_tick-AtMost world executor 300 false "sh1" 30).from busy (record { bound = omega arith })

Reach-AtMost_example : AtMost 1 (after tick (after create fresh))
unfolding program
Reach-AtMost_example =
    Reach-AtMost {s = fresh} (next tick (next create start refl) refl)
      (record { bound = omega arith })

-- Long after the dispatch.
abbrev late : Stores
late = record busy { clock_reads = 400 }

run_tick-unsticks_example :
    let s' = (run_tick world executor 300 "sh1" 30 false late).1 in
    ((run_tick world executor 300 "sh1" 30 false late).0 ≡ ok tt)
    × (find "q1" s'.queue
        ≡ some (record busy_item { status = "ERROR"; completed_time = some 402000 }))
    × (s'.job_calls ≡ Stores.cancelled (some "sid1") ∷ [])
    × Finalized world busy_item busy_item
        (record { status = "ERROR"; result_count = 0; error_message = some (stuck_job 300) })
        syslog
        active_run
        (given_up world executor 300 30 "sh1" false busy_item 0 late)
        s'
unfolding program
run_tick-unsticks_example =
    run_tick-unsticks world executor 300 30 "sh1" false busy_item 0 late refl refl refl
      (omega arith) refl busy_item refl refl syslog active_run refl refl

abbrev done_item : QueueItem
done_item = record busy_item { status = "DONE" }

abbrev over : Stores
over = record busy { queue = ("q1", done_item) ∷ [] }

closed-stays_example : find "q1" (after create (after tick over)).queue ≡ some done_item
unfolding program
closed-stays_example =
    closed-stays "q1" {s = over} (next create (next tick start refl) refl) ((refl, λ e. refl), tt)
      refl
