-- ===== src/Controller/Stuck.antt =====
-- A job that has run for too long does not hold up the queue.
use app_datasource_validator.Prelude.{
  ℕ, suc, ◌+◌, ◌*◌, ◌<◌, String, ◌≡◌, refl, ap, ◌∙◌, Bool, false, Option, none, some, [], ◌∷◌, ◌++◌,
  arith, Option-cases, inl, inr,
}
use app_datasource_validator.Kv.{Collection, find, replace}
use app_datasource_validator.Exec.{ok, bind-ok}
use app_datasource_validator.Models.DataSource.{DataSource}
use app_datasource_validator.Models.Queue.{QueueItem}
use app_datasource_validator.Models.ValidationResult.{stuck_job}
use app_datasource_validator.Models.Run.{ValidationRun}
use app_datasource_validator.Models.WorkerLease.{WorkerLease, lease_id}
use app_datasource_validator.Stores.{World, Stores, cancelled}
use app_datasource_validator.Stores.Queue
use app_datasource_validator.Stores.Leases
use app_datasource_validator.Stores.Leases.Exclusion.{lease_in}
use app_datasource_validator.Executor
use app_datasource_validator.Executor.{SearchExecutor}
use app_datasource_validator.Controller.{finalize}
use app_datasource_validator.Controller.Tick.{
  handle_running_item, run_tick, timed_out, tick_with_lease, tick_work,
}
use app_datasource_validator.Controller.Finalize.{Finalized, finalize_lem}

module _ (w : World) (owner : String) (ttl : ℕ) (s : Stores) where
  abbrev the_lease : WorkerLease
  the_lease = Leases.granted (lease_in s) owner ttl (w.time_at s.clock_reads)

  abbrev with_lease : Option WorkerLease → Collection WorkerLease
  with_lease none = s.leases ++ (lease_id, the_lease) ∷ []
  with_lease (some l) = replace lease_id the_lease s.leases

  -- After the lease is granted.
  abbrev pub leased : Stores
  leased = record s { leases = with_lease (lease_in s); clock_reads = suc s.clock_reads }

  try_acquire-leased :
      Leases.held_by_other (lease_in s) owner (w.time_at s.clock_reads) ≡ false
      → Leases.try_acquire w owner ttl s ≡ (ok (some the_lease), leased)
  unfolding Leases.try_acquire
  try_acquire-leased h = elim (Option-cases (lease_in s)) [
    | inl absent ↦ ground (arith, h, absent)
    | inr (l, present) ↦ ground (arith, h, present)
  ]

-- After the job of an item was cancelled at the search head.
abbrev pub after_cancel : QueueItem → Stores → Stores
after_cancel item s = record s {
  clock_reads = suc s.clock_reads;
  job_calls = s.job_calls ++ cancelled item.sid ∷ [];
}

module _ (w : World) (x : SearchExecutor) (timeout : ℕ) (item : QueueItem) (dispatched : ℕ) where
  handle_running-stuck :
      (s : Stores)
      → item.dispatched_time ≡ some dispatched
      → dispatched + 1000 * timeout < w.time_at s.clock_reads
      → x.job_client.cancel item.sid ≡ ok tt
      → handle_running_item w x timeout item s
        ≡ finalize w item (timed_out w x timeout) (after_cancel item s)
  unfolding handle_running_item Executor.cancel
  handle_running-stuck s sent late answered = ground (arith, sent, late, answered)

module _ (w : World) (x : SearchExecutor) (timeout ttl : ℕ) (owner : String) (is_admin : Bool)
    (item : QueueItem) (dispatched : ℕ) (s : Stores) where
  -- The state in which the item is finalized.
  abbrev pub given_up : Stores
  given_up = after_cancel item (leased w owner ttl s)

  found_running :
      (Queue.find_any_running s).0 ≡ ok (some item)
      → Queue.find_any_running (leased w owner ttl s) ≡ (ok (some item), leased w owner ttl s)
  unfolding Queue.find_any_running
  found_running h = ap (λ r. (r, leased w owner ttl s)) h

  run_tick-finalizes :
      Leases.held_by_other (lease_in s) owner (w.time_at s.clock_reads) ≡ false
      → (Queue.find_any_running s).0 ≡ ok (some item)
      → item.dispatched_time ≡ some dispatched
      → dispatched + 1000 * timeout < w.time_at (suc s.clock_reads)
      → x.job_client.cancel item.sid ≡ ok tt
      → run_tick w x timeout owner ttl is_admin s ≡ finalize w item (timed_out w x timeout) given_up
  unfolding run_tick
  run_tick-finalizes free running sent late answered =
      bind-ok (Leases.try_acquire w owner ttl) (tick_with_lease w x timeout is_admin) s _ _
        (try_acquire-leased w owner ttl s free)
      ∙ bind-ok Queue.find_any_running (tick_work w x timeout is_admin) (leased w owner ttl s) _ _
          (found_running running)
      ∙ handle_running-stuck w x timeout item dispatched (leased w owner ttl s) sent late answered

  -- A tick that finds a job in flight for too long. A worker gets the lease, more than the timeout
  -- has passed since the RUNNING item was dispatched, and the search head takes the cancellation;
  -- the item, its data source and its run are there, and the identifier of the new result is free.
  -- Then the tick returns and the item has the status ERROR and the time of its end. What is stored
  -- is what `_finalize` makes of an ERROR without results whose message names the timeout: such a
  -- result, with the item's query hash and version, the status ERROR of the data source, and the
  -- progress of the run. The search head gets one call, that cancels the item's job.
  pub run_tick-unsticks :
      Leases.held_by_other (lease_in s) owner (w.time_at s.clock_reads) ≡ false
      → (Queue.find_any_running s).0 ≡ ok (some item)
      → item.dispatched_time ≡ some dispatched
      → dispatched + 1000 * timeout < w.time_at (suc s.clock_reads)
      → x.job_client.cancel item.sid ≡ ok tt
      → (cur : QueueItem) (queued : find item.queue_id s.queue ≡ some cur)
        (fresh : find (w.identifier "result" s.ids_made) s.results ≡ none) (ds : DataSource)
        (run : ValidationRun) (known : find item.datasource_id s.datasources ≡ some ds)
        (active : find item.run_id s.runs ≡ some run)
      → let s' = (run_tick w x timeout owner ttl is_admin s).1 in
        ((run_tick w x timeout owner ttl is_admin s).0 ≡ ok tt)
        × (find item.queue_id s'.queue
            ≡ some (record cur {
              status = "ERROR";
              completed_time = some (w.time_at (suc (suc s.clock_reads)));
            }))
        × (s'.job_calls ≡ s.job_calls ++ cancelled item.sid ∷ [])
        × Finalized w item cur
            (record {
              status = "ERROR";
              result_count = 0;
              error_message = some (stuck_job timeout);
            })
            ds
            run
            given_up
            s'
  run_tick-unsticks free running sent late answered cur queued fresh ds run known active =
      let (returned, fin) =
        finalize_lem w item (timed_out w x timeout) given_up cur queued fresh ds run known active in
      rw (run_tick-finalizes free running sent late answered)
        (returned, fin.errored refl, fin.same_calls, fin)
