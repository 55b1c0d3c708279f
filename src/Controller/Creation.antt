-- ===== src/Controller/Creation.antt =====
-- `create_run`: the order of its queue items, and what it writes.
pub mod Order
pub mod Batch
pub mod Marks
mod Tests
use app_datasource_validator.Prelude.{
  ℕ, zero, suc, ◌+◌, ◌≤◌, String, ◌==◌, ◌≡◌, refl, ◌∙◌, ap, subst, Bool, true, false, not, ◌&&◌,
  ◌||◌, Option, none, some, List, [], ◌∷◌, ◌++◌, arith, keep, length, tally, is_nil, is_some, sort,
  tally-sort, length-sort, if◌then◌else◌, All, All-sort, All-keep, All-map, IsSorted, eq_refl,
}
use app_datasource_validator.Kv.{Collection, find, docs}
use app_datasource_validator.Exec.{
  Error, value_error, Result, ok, err, raise, pure, bind-ok, for_each, ◌>>=◌, ◌>>◌,
}
use app_datasource_validator.Models.DataSource.{DataSource}
use app_datasource_validator.Models.Platform.{Platform}
use app_datasource_validator.Models.Queue.{QueueItem}
use app_datasource_validator.Models.Run.{ValidationRun, run_status_running}
use app_datasource_validator.Stores.{World, Stores, Action}
use app_datasource_validator.Stores.Platforms
use app_datasource_validator.Stores.DataSources
use app_datasource_validator.Stores.Queue
use app_datasource_validator.Stores.Runs
use app_datasource_validator.Controller.{select, by_sort_key, queue_items, start_run, create_run}
use app_datasource_validator.Controller.Creation.Order.{sort_key-IsSorted}
use app_datasource_validator.Controller.Creation.Batch.{Queued, FreshFrom, create_batch-Queued}
use app_datasource_validator.Controller.Creation.Marks.{Marked, IsStored, Loop, for_each-Loop}

-- Each data source stands under its own identifier.
abbrev pub Keyed : Collection DataSource → Type 0
Keyed = All (λ (k, ds). ds.datasource_id ≡ k)

abbrev pub IsIn : Collection DataSource → DataSource → Type 0
IsIn c ds = is_some (find ds.datasource_id c) ≡ true

IsIn-later :
    (e : String × DataSource) (c : Collection DataSource) (ds : DataSource)
    → IsIn c ds
    → IsIn (e ∷ c) ds
unfolding find
IsIn-later (k, d) c ds h = ground (arith, h)

Keyed-IsIn : (c : Collection DataSource) → Keyed c → All (IsIn c) (docs c)
unfolding docs find
Keyed-IsIn [] h = tt
Keyed-IsIn ((k, ds) ∷ c) (h, hs) =
    (rw (h, eq_refl k) refl, All-map (λ d i. IsIn-later (k, ds) c d i) (docs c) (Keyed-IsIn c hs))

-- What `create_run` did, from `s` to `s'`: the queue items of the run, one for each selected data
-- source, in the order of `sort_key`.
pub record Created (platforms : List Platform) (selected : List DataSource) (s s' : Stores)
    (run : ValidationRun) : Type 0 where
  pub order : List DataSource
  pub sorted : IsSorted (by_sort_key platforms) order
  pub same : (p : DataSource → Bool) → tally p order ≡ tally p selected
  pub added : Collection QueueItem
  pub queue : s'.queue ≡ s.queue ++ added
  pub queued : Queued 0 run.run_id order (docs added)
  pub stored : s'.runs ≡ s.runs ++ (run.run_id, run) ∷ []
  pub running : run.status ≡ run_status_running
  pub counted : run.total_items ≡ length selected
  pub marked : All (λ ds. Marked run.run_id ds.datasource_id s') order

module _ (w : World) where
  -- The identifiers of a run and of its queue items are new.
  pub record Fresh (s : Stores) : Type 0 where
    pub run_unused : find (w.identifier "run" s.ids_made) s.runs ≡ none
    pub queue_unused : FreshFrom w (suc s.ids_made) s.queue

  module _ (by trigger : String) where
    abbrev made : ℕ → Stores → ValidationRun
    made total s =
        Runs.new_run (w.identifier "run" s.ids_made) (w.time_at s.clock_reads) by trigger total

    abbrev with_run : ℕ → Stores → Stores
    with_run total s = record s {
      runs = s.runs ++ ((made total s).run_id, made total s) ∷ [];
      ids_made = suc s.ids_made;
      clock_reads = suc s.clock_reads;
    }

    runs_create-new :
        (total : ℕ) (s : Stores)
        → Fresh s
        → Runs.create w by trigger total s ≡ (ok (made total s), with_run total s)
    unfolding Runs.create
    runs_create-new total s f = ground (arith, f.run_unused)

    start_run-Created :
        (platforms : List Platform) (selected : List DataSource) (s : Stores)
        → Fresh s
        → All (IsStored s) selected
        → (run : ValidationRun) × (s' : Stores) × (start_run w by trigger
              (sort (by_sort_key platforms) selected)
              s
            ≡ (ok run, s'))
          × Created platforms selected s s' run
    unfolding start_run
    start_run-Created platforms selected s f all =
        let order = sort (by_sort_key platforms) selected in
        let total = length order in
        let run = made total s in
        let (added, batched, q) =
          create_batch-Queued w run.run_id order (with_run total s) f.queue_unused in
        let (s', looped, l) =
          for_each-Loop w run.run_id order _
            (All-sort (by_sort_key platforms) (IsStored s) selected all) in
        (
          run,
          s',
          bind-ok (Runs.create w by trigger total) _ s run (with_run total s)
                (runs_create-new total s f)
              ∙ bind-ok (Queue.create_batch w run.run_id (queue_items 0 order)) _ (with_run total s)
                  _ _ batched
              ∙ bind-ok (for_each order _) _ _ _ _ looped,
          record {
            order = order;
            sorted = sort_key-IsSorted platforms selected;
            same = λ p. tally-sort (by_sort_key platforms) p selected;
            added = added;
            queue = l.same_queue;
            queued = q;
            stored = l.same_runs;
            running = refl;
            counted = length-sort (by_sort_key platforms) selected;
            marked = l.marks;
          },
        )

    listed_platforms :
        (platforms : List Platform) (s : Stores)
        → (Platforms.list false s).0 ≡ ok platforms
        → Platforms.list false s ≡ (ok platforms, s)
    unfolding Platforms.list
    listed_platforms platforms s h = ap (λ r. (r, s)) h

    listed_datasources :
        (all : List DataSource) (s : Stores)
        → (DataSources.list none false s).0 ≡ ok all
        → DataSources.list none false s ≡ (ok all, s)
    unfolding DataSources.list
    listed_datasources all s h = ap (λ r. (r, s)) h

    abbrev answer_or_nil : Result (List DataSource) → List DataSource
    answer_or_nil (ok dss) = dss
    answer_or_nil (err e) = []

    listed-IsStored :
        (all : List DataSource) (s : Stores)
        → (DataSources.list none false s).0 ≡ ok all
        → Keyed s.datasources
        → All (IsStored s) all
    unfolding DataSources.list
    listed-IsStored all s h keyed = subst (All (IsStored s)) (ap answer_or_nil h) (
        All-sort DataSources.by_order_and_name (IsStored s) _ (
          All-keep (IsStored s) (λ x. DataSources.of_platform none x && (not false || x.enabled))
            (docs s.datasources) (Keyed-IsIn s.datasources keyed)))

    select-IsStored :
        (s : Stores) (platforms : List Platform) (datasource_ids : Option (List String))
        (all : List DataSource)
        → All (IsStored s) all
        → All (IsStored s) (select platforms datasource_ids all)
    unfolding select
    select-IsStored s platforms datasource_ids all h = search (All-keep, h)

    -- What follows the two lists.
    abbrev from_lists :
        List Platform → Option (List String) → List DataSource → Action ValidationRun
    from_lists platforms datasource_ids all =
        let selected = select platforms datasource_ids all in
        if is_nil selected
        then raise value_error
        else start_run w by trigger (sort (by_sort_key platforms) selected)

    from_lists-starts :
        (platforms : List Platform) (datasource_ids : Option (List String)) (all : List DataSource)
        (s : Stores)
        → is_nil (select platforms datasource_ids all) ≡ false
        → from_lists platforms datasource_ids all s
          ≡ start_run w by trigger
              (sort (by_sort_key platforms) (select platforms datasource_ids all))
              s
    from_lists-starts platforms datasource_ids all s h = rw h refl

    -- `create_run` returns a new run that is RUNNING, and adds to the queue one waiting item of the
    -- run for each selected data source, with its hash and version, in the order of `sort_key`: the
    -- platform's order, the data source's order, the name. Each selected data source is then marked
    -- as QUEUED in that run. This holds where a data source is selected, each stands under its own
    -- identifier, and the identifiers of the run and of the items are new.
    pub create_run_lem :
        (datasource_ids : Option (List String)) (platforms : List Platform) (all : List DataSource)
        (s : Stores)
        → (Platforms.list false s).0 ≡ ok platforms
        → (DataSources.list none false s).0 ≡ ok all
        → is_nil (select platforms datasource_ids all) ≡ false
        → Keyed s.datasources
        → Fresh s
        → (run : ValidationRun) × (s' : Stores) × (create_run w by trigger datasource_ids s
            ≡ (ok run, s'))
          × Created platforms (select platforms datasource_ids all) s s' run
    unfolding create_run
    create_run_lem datasource_ids platforms all s p d some_selected keyed f =
        let selected = select platforms datasource_ids all in
        let (run, s', e, c) =
          start_run-Created platforms selected s f
            (select-IsStored s platforms datasource_ids all (listed-IsStored all s d keyed)) in
        (
          run,
          s',
          bind-ok (Platforms.list false)
                (λ ps. DataSources.list none false >>= from_lists ps datasource_ids) s platforms s
                (listed_platforms platforms s p)
              ∙ bind-ok (DataSources.list none false) (from_lists platforms datasource_ids) s all s
                  (listed_datasources all s d)
              ∙ from_lists-starts platforms datasource_ids all s some_selected
              ∙ e,
          c,
        )
