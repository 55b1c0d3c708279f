-- ===== src/Controller/Finalize.antt =====
-- `_finalize`: what the end of a search writes, and what it does not look at.
use app_datasource_validator.Prelude.{
  ℕ, suc, String, eq_iff, ◌≡◌, ◌≢◌, refl, ap, ◌∙◌, none, some, [], ◌∷◌, ◌++◌, arith,
}
use app_datasource_validator.Kv.{find, replace}
use app_datasource_validator.Kv.Laws.{find-replace_self, find-append_new}
use app_datasource_validator.Exec.{ok, err, not_found}
use app_datasource_validator.Models.DataSource.{DataSource}
use app_datasource_validator.Models.Queue.{QueueItem}
use app_datasource_validator.Models.Run.{ValidationRun}
use app_datasource_validator.Stores.{World, Stores}
use app_datasource_validator.Stores.DataSources
use app_datasource_validator.Stores.Queue
use app_datasource_validator.Stores.Results
use app_datasource_validator.Executor.{ValidationOutcome}
use app_datasource_validator.Controller.{
  finalize, finalized, queue_status_for, advance_run_progress,
}
use app_datasource_validator.Controller.Progress.{
  Advanced, advance_run_progress_lem, Advanced-at_end,
}

-- What the stores hold after `_finalize`.
pub record Finalized (w : World) (item cur : QueueItem) (o : ValidationOutcome) (ds : DataSource)
    (run : ValidationRun) (s s' : Stores) : Type 0 where
  pub errored :
      o.status ≡ "ERROR"
      → find item.queue_id s'.queue
        ≡ some (record cur { status = "ERROR"; completed_time = some (w.time_at s.clock_reads) })
  pub done :
      o.status ≢ "ERROR"
      → find item.queue_id s'.queue
        ≡ some (record cur { status = "DONE"; completed_time = some (w.time_at s.clock_reads) })
  pub result_stored :
      find (w.identifier "result" s.ids_made) s'.results
      ≡ some (record {
        result_id = w.identifier "result" s.ids_made;
        run_id = item.run_id;
        queue_id = item.queue_id;
        datasource_id = item.datasource_id;
        platform_id = item.platform_id;
        status = o.status;
        result_count = o.result_count;
        query_hash = item.query_hash;
        query_version = item.query_version;
        executed_time = w.time_at (suc s.clock_reads);
        duration_ms = 0;
        error_message = o.error_message;
      })
  pub datasource_judged :
      find item.datasource_id s'.datasources
      ≡ some (record ds {
        current_status = o.status;
        last_result_time = some (w.time_at (suc s.clock_reads));
        last_run_id = some item.run_id;
        updated_time = some (w.time_at (suc (suc s.clock_reads)));
      })
  pub run_advanced : Advanced item.run_id run s' s'
  pub same_calls : s'.job_calls ≡ s.job_calls

module _ (w : World) (item : QueueItem) (o : ValidationOutcome) (s : Stores) where
  abbrev pub result_key : String
  result_key = w.identifier "result" s.ids_made

  -- The readings of the clock: for the queue item, for the result, for the data source.
  abbrev pub ended_at : ℕ
  ended_at = w.time_at s.clock_reads

  abbrev pub recorded_at : ℕ
  recorded_at = w.time_at (suc s.clock_reads)

  abbrev pub updated_at : ℕ
  updated_at = w.time_at (suc (suc s.clock_reads))

  abbrev pub closed_item : QueueItem → QueueItem
  closed_item = Queue.ended (queue_status_for o.status) ended_at

  -- After the queue item is closed and the result is stored.
  abbrev pub recorded : QueueItem → Stores
  recorded cur = record s {
    queue = replace item.queue_id (closed_item cur) s.queue;
    results =
        s.results
        ++ (result_key, Results.new_result result_key recorded_at (finalized item o)) ∷ [];
    clock_reads = suc (suc s.clock_reads);
    ids_made = suc s.ids_made;
  }

  abbrev pub judged : DataSource → DataSource
  judged = DataSources.with_status o.status (some recorded_at) (some item.run_id) updated_at

  -- And after the data source has its status.
  abbrev pub updated : QueueItem → DataSource → Stores
  updated cur ds = record (recorded cur) {
    datasources = replace item.datasource_id (judged ds) s.datasources;
    clock_reads = suc (suc (suc s.clock_reads));
  }

  module _ (cur : QueueItem) (queued : find item.queue_id s.queue ≡ some cur)
      (fresh : find result_key s.results ≡ none) where
    -- If the data source was deleted while its search ran, `_finalize` ends in NotFoundError. The
    -- queue item is closed and the result is stored by then, and nothing else is written: the run
    -- keeps its status and its count.
    pub finalize-deleted :
        find item.datasource_id s.datasources ≡ none
        → finalize w item o s ≡ (err not_found, recorded cur)
    unfolding finalize
    finalize-deleted gone = ground arith

    module _ (ds : DataSource) (run : ValidationRun)
        (known : find item.datasource_id s.datasources ≡ some ds)
        (active : find item.run_id s.runs ≡ some run) where
      finalize-advances : finalize w item o s ≡ advance_run_progress w item.run_id (updated cur ds)
      unfolding finalize
      finalize-advances = ground arith

      -- Where the queue item, the data source and the run are there and the new result's key is
      -- free, `_finalize` returns. The queue item has the status ERROR if the outcome is ERROR, and
      -- DONE otherwise, and the time of its end. The result carries the item's identifiers, query
      -- hash and query version, and the outcome's status, count and message. The data source has the
      -- outcome's status, the result's time and the item's run, and keeps its query. The run counts
      -- the finished items of the queue as it is then, and nothing is sent to the search head.
      pub finalize_lem :
          ((finalize w item o s).0 ≡ ok tt)
          × Finalized w item cur o ds run s (finalize w item o s).1
      finalize_lem =
          let (returned, adv) =
            advance_run_progress_lem w item.run_id (updated cur ds) run active in
          let closed = find-replace_self item.queue_id cur (closed_item cur) s.queue queued in
          rw finalize-advances (
            returned,
            record {
              errored = λ e. rw adv.same_queue (closed ∙ ap (λ q. some (with_end q)) (error_for e));
              done = λ ne. rw adv.same_queue (closed ∙ ap (λ q. some (with_end q)) (done_for ne));
              result_stored = rw adv.same_results (find-append_new result_key _ s.results fresh);
              datasource_judged =
                  rw adv.same_datasources
                    (find-replace_self item.datasource_id ds (judged ds) s.datasources known);
              run_advanced = Advanced-at_end adv;
              same_calls = adv.same_calls;
            },
          )
        where
          with_end : String → QueueItem
          with_end status = record cur { status = status; completed_time = some ended_at }

          error_for : o.status ≡ "ERROR" → queue_status_for o.status ≡ "ERROR"
          error_for e = rw e refl

          done_for : o.status ≢ "ERROR" → queue_status_for o.status ≡ "DONE"
          done_for ne = ground (arith, ne, eq_iff o.status "ERROR")
