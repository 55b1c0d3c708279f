-- ===== src/Controller/Edits.antt =====
-- Edits and cancellations that meet a search in flight.
use app_datasource_validator.Prelude.{
  suc, ◌+◌, String, ◌≡◌, refl, ap, sym, Bool, true, false, none, some, arith, is_nil, if◌then◌else◌,
  Option-cases, inl, inr,
}
use app_datasource_validator.Text.{Text, codes, strip}
use app_datasource_validator.Kv.{find, replace}
use app_datasource_validator.Kv.Laws.{find-replace_self}
use app_datasource_validator.Exec.{Exec, Result, ok, err, not_found, ◌>>=◌, pure, resume}
use app_datasource_validator.Models.DataSource.{DataSource}
use app_datasource_validator.Models.Queue.{QueueItem, queue_status_cancelled}
use app_datasource_validator.Models.Run.{ValidationRun}
use app_datasource_validator.Stores.{World, Stores}
use app_datasource_validator.Stores.DataSources
use app_datasource_validator.Stores.Queue
use app_datasource_validator.Executor.{SearchExecutor, ValidationOutcome}
use app_datasource_validator.Controller.{
  finalize, advance_run_progress, cancel_run, cancel_found, cancel_unless_running, find_next_queued,
}
use app_datasource_validator.Controller.Progress.{
  Advanced, Advanced-at_end, advance_run_progress_lem,
}
use app_datasource_validator.Controller.Finalize.{finalize_lem, recorded_at, updated_at}
use app_datasource_validator.Controller.Tick.{drop_item, dispatch_next}

module _ (w : World) (query_hash : Text → String) (id q : String) (s : Stores) (ds : DataSource)
    (there : find id s.datasources ≡ some ds) where
  abbrev pub edited : DataSource
  edited = DataSources.with_query query_hash q (w.time_at s.clock_reads) ds

  -- Editing a query that is not blank stores the new text, the next version and the status NOT RUN,
  -- and changes no other document.
  pub update_query_lem :
      is_nil (strip (codes q)) ≡ false
      → DataSources.update_query w query_hash id q s ≡ (
        ok edited,
        record s { datasources = replace id edited s.datasources; clock_reads = suc s.clock_reads },
      )
  unfolding DataSources.update_query
  update_query_lem h = ground arith

-- A search that was dispatched before an edit of its query still sets the status. If the query is
-- edited while the item is in flight, and the search of the old text then ends with `o`, the data
-- source holds the new text under the next version with the status of `o`: a pass of the old text
-- stands as the status of the new one.
pub finalize-after_edit :
    (w w' : World) (query_hash : Text → String) (item cur : QueueItem) (o : ValidationOutcome)
    (q : String) (s : Stores) (ds : DataSource) (run : ValidationRun)
    → is_nil (strip (codes q)) ≡ false
    → find item.datasource_id s.datasources ≡ some ds
    → find item.queue_id s.queue ≡ some cur
    → find item.run_id s.runs ≡ some run
    → find (w'.identifier "result" s.ids_made) s.results ≡ none
    → (d : DataSource) × (find item.datasource_id
          (finalize w' item o
            (DataSources.update_query w query_hash item.datasource_id q s).1).1.datasources
        ≡ some d)
      × (d.spl_query ≡ q)
      × (d.query_version ≡ ds.query_version + 1)
      × (d.current_status ≡ o.status)
finalize-after_edit w w' query_hash item cur o q s ds run h there queued active fresh =
    let e = edited w query_hash item.datasource_id q s ds there in
    let s' : Stores = record s {
      datasources = replace item.datasource_id e s.datasources;
      clock_reads = suc s.clock_reads;
    } in
    rw (update_query_lem w query_hash item.datasource_id q s ds there h) (
      record e {
        current_status = o.status;
        last_result_time = some (recorded_at w' item o s');
        last_run_id = some item.run_id;
        updated_time = some (updated_at w' item o s');
      },
      (finalize_lem w' item o s' cur queued fresh e run
          (find-replace_self item.datasource_id ds e s.datasources there)
          active).1.datasource_judged,
      refl,
      refl,
      refl,
    )

-- If the action returns, then it returns `b`.
record Returns {S B : Type 0} (b : B) (m : Exec S B) : Type 0 where
  at : (s : S) (c : B) → (m s).0 ≡ ok c → c ≡ b

module _ {S B : Type 0} {b : B} where
  Returns-pure : Returns {S = S} b (pure b)
  unfolding pure
  Returns-pure = record { at = λ s c h. cc }

  Returns-branch :
      (t : Bool) (m n : Exec S B) → Returns b m → Returns b n → Returns b (if t then m else n)
  Returns-branch true m n rm rn = rm
  Returns-branch false m n rm rn = rn

  Returns-bind :
      {A : Type 0} (m : Exec S A) (f : A → Exec S B)
      → ((a : A) → Returns b (f a))
      → Returns b (m >>= f)
  unfolding ◌>>=◌
  Returns-bind {A} m f last = record { at = λ s c. let (r, s') = m s in resumed r s' c }
    where
      resumed : (r : Result A) (s' : S) (c : B) → (resume r f s').0 ≡ ok c → c ≡ b
      resumed (ok a) s' c h = (last a).at s' c h
      resumed (err e) s' c h = cc

ruleset returns_rules = (Returns-pure, Returns-branch, Returns-bind)

-- An item that is dropped, and what is left as it was.
pub record Dropped (w : World) (item cur : QueueItem) (run : ValidationRun) (s : Stores)
    (o : Result (Unit {0}) × Stores) : Type 0 where
  pub returned : o.0 ≡ ok tt
  pub item_closed :
      find item.queue_id o.1.queue
      ≡ some (record cur { status = "CANCELLED"; completed_time = some (w.time_at s.clock_reads) })
  pub run_advanced : Advanced item.run_id run o.1 o.1
  pub same_datasources : o.1.datasources ≡ s.datasources
  pub same_results : o.1.results ≡ s.results
  pub same_calls : o.1.job_calls ≡ s.job_calls

module _ (w : World) where
  cancel_unless-Returns :
      (run : ValidationRun) (id : String) → Returns run (cancel_unless_running w run id)
  unfolding cancel_unless_running
  cancel_unless-Returns run id = search returns_rules

  cancel_found-Returns : (run : ValidationRun) (id : String) → Returns run (cancel_found w run id)
  unfolding cancel_found
  cancel_found-Returns run id = search (returns_rules, cancel_unless-Returns) depth 8

  -- A cancelled run is answered as it was: whenever `cancel_run` returns, it returns the document
  -- that the store held before the call, whatever it has written since.
  pub cancel_run-unchanged :
      (id : String) (s : Stores) (answer : ValidationRun)
      → (cancel_run w id s).0 ≡ ok answer
      → find id s.runs ≡ some answer
  unfolding cancel_run
  cancel_run-unchanged id s answer h = elim (Option-cases (find id s.runs)) [
    | inl gone ↦ absurd (no_answer (rw gone at h))
    | inr (run, there) ↦
        rw there (ap some (sym ((cancel_found-Returns run id).at s answer (rw there at h))))
  ]
    where
      no_answer : ◌≡◌ {A = Result ValidationRun} (err not_found) (ok answer) → ⊥
      no_answer e = cc

  -- A run that is not there is NotFoundError, and nothing is written.
  pub cancel_run-missing :
      (id : String) (s : Stores) → find id s.runs ≡ none → cancel_run w id s ≡ (err not_found, s)
  unfolding cancel_run
  cancel_run-missing id s gone = ground arith

  abbrev dropped : QueueItem → QueueItem → Stores → Stores
  dropped item cur s = record s {
    queue =
        replace item.queue_id (Queue.ended queue_status_cancelled (w.time_at s.clock_reads) cur)
          s.queue;
    clock_reads = suc s.clock_reads;
  }

  drop-advances :
      (item cur : QueueItem) (s : Stores)
      → find item.queue_id s.queue ≡ some cur
      → drop_item w item s ≡ advance_run_progress w item.run_id (dropped item cur s)
  unfolding drop_item
  drop-advances item cur s queued = ground arith

  drop_item-Dropped :
      (item cur : QueueItem) (s : Stores) (run : ValidationRun)
      → find item.queue_id s.queue ≡ some cur
      → find item.run_id s.runs ≡ some run
      → Dropped w item cur run s (drop_item w item s)
  drop_item-Dropped item cur s run queued active =
      let closed = Queue.ended queue_status_cancelled (w.time_at s.clock_reads) cur in
      let (returned, adv) =
        advance_run_progress_lem w item.run_id (dropped item cur s) run active in
      rw (drop-advances item cur s queued) (record {
        returned = returned;
        item_closed = rw adv.same_queue (find-replace_self item.queue_id cur closed s.queue queued);
        run_advanced = Advanced-at_end adv;
        same_datasources = adv.same_datasources;
        same_results = adv.same_results;
        same_calls = adv.same_calls;
      })

  module _ (x : SearchExecutor) (is_admin : Bool) where
    -- If the next queued item is one whose data source was deleted, or is disabled by now, then the
    -- dispatch returns without a call of the search head: the item is closed as CANCELLED, its run
    -- is advanced, and the data sources and the results are as they were, so that a data source
    -- that was disabled keeps its status. This holds where the item and its run are there.
    pub dispatch_next-drops :
        (item cur : QueueItem) (s : Stores) (run : ValidationRun)
        → find_next_queued s ≡ (ok (some item), s)
        → ((ds : DataSource) → find item.datasource_id s.datasources ≡ some ds → ds.enabled ≡ false)
        → find item.queue_id s.queue ≡ some cur
        → find item.run_id s.runs ≡ some run
        → Dropped w item cur run s (dispatch_next w x is_admin s)
    unfolding dispatch_next DataSources.get
    dispatch_next-drops item cur s run next out queued active =
        elim (Option-cases (find item.datasource_id s.datasources)) [
          | inl gone ↦ rw (next, gone) (drop_item-Dropped item cur s run queued active)
          | inr (ds, there) ↦
              rw (next, there, out ds there) (drop_item-Dropped item cur s run queued active)
        ]
