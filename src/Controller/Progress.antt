-- ===== src/Controller/Progress.antt =====
-- `_advance_run_progress`: what a run records of its items, and when it is completed.
use app_datasource_validator.Prelude.{
  ℕ, suc, ◌<◌, String, ◌==◌, eq_iff, eq_refl, ◌≡◌, refl, ◌∙◌, ◌≢◌, ◌+◌, if◌then◌else◌, Bool, true,
  false, not, ◌&&◌, none, some, List, [], ◌∷◌, arith, is_nil, keep, tally, length, sort, leb,
  length-sort, tally-sort, Bool-cases, inl, inr,
}
use app_datasource_validator.Kv.{find, replace, docs}
use app_datasource_validator.Kv.Laws.{find-replace}
use app_datasource_validator.Exec.{ok, err, not_found}
use app_datasource_validator.Models.Queue.{QueueItem}
use app_datasource_validator.Models.Run.{ValidationRun, run_status_running, run_status_completed}
use app_datasource_validator.Stores.{World, Stores}
use app_datasource_validator.Stores.Queue
use app_datasource_validator.Controller.{advance_run_progress, is_finished}

-- The items of a run, and how many are DONE, ERROR or CANCELLED.
abbrev pub items_of : String → Stores → List QueueItem
items_of run_id s = keep (λ i. i.run_id == run_id && true) (docs s.queue)

abbrev with_status : String → List QueueItem → ℕ
with_status status = tally (λ i. i.status == status)

abbrev pub finished_of : String → Stores → ℕ
finished_of run_id s =
    let items = items_of run_id s in
    with_status "DONE" items + with_status "ERROR" items + with_status "CANCELLED" items

abbrev listed : String → Stores → List QueueItem
listed run_id s = sort Queue.by_index (items_of run_id s)

abbrev progressed : ℕ → ValidationRun → ValidationRun
progressed n run = record run { completed_items = n }

abbrev completed_at : ℕ → ValidationRun → ValidationRun
completed_at now run = record run { status = run_status_completed; completed_time = some now }

module _ (w : World) (id : String) (s : Stores) where
  abbrev all_done : Bool
  all_done =
      not (is_nil (listed id s)) && leb (length (listed id s)) (tally is_finished (listed id s))

  abbrev counted : ValidationRun → ValidationRun
  counted = progressed (tally is_finished (listed id s))

  -- A run that is gone ends the update with NotFoundError.
  advance-missing : find id s.runs ≡ none → advance_run_progress w id s ≡ (err not_found, s)
  unfolding advance_run_progress
  advance-missing h = ground arith

  module _ (run : ValidationRun) (found : find id s.runs ≡ some run) where
    refound : (r : ValidationRun) → find id (replace id r s.runs) ≡ some r
    refound r = rw (find-replace id id r s.runs) (rw (eq_refl id, found) refl)

    advance-open :
        all_done ≡ false
        → advance_run_progress w id s ≡ (ok tt, record s { runs = replace id (counted run) s.runs })
    unfolding advance_run_progress
    advance-open h = ground (arith, h)

    advance-closed :
        all_done ≡ true
        → (run.status == run_status_running) ≡ false
        → advance_run_progress w id s ≡ (ok tt, record s { runs = replace id (counted run) s.runs })
    unfolding advance_run_progress
    advance-closed h k = ground (arith, h, k, refound (counted run))

    advance-completes :
        all_done ≡ true
        → (run.status == run_status_running) ≡ true
        → advance_run_progress w id s ≡ (
          ok tt,
          record s {
            runs =
                replace id
                  (completed_at (w.time_at s.clock_reads) (counted run))
                  (replace id (counted run) s.runs);
            clock_reads = suc s.clock_reads;
          },
        )
    unfolding advance_run_progress
    advance-completes h k = ground (arith, h, k, refound (counted run))

-- What the update makes of a run: `after` is the run as it is stored then.
pub record Advanced (id : String) (run : ValidationRun) (s s' : Stores) : Type 0 where
  pub after : ValidationRun
  pub stored : find id s'.runs ≡ some after
  pub counts : after.completed_items ≡ finished_of id s
  pub completed :
      run.status ≡ run_status_running
      → items_of id s ≢ []
      → finished_of id s ≡ length (items_of id s)
      → after.status ≡ run_status_completed
  pub unfinished : finished_of id s < length (items_of id s) → after.status ≡ run.status
  pub not_running : run.status ≢ run_status_running → after.status ≡ run.status
  pub same_queue : s'.queue ≡ s.queue
  pub same_datasources : s'.datasources ≡ s.datasources
  pub same_results : s'.results ≡ s.results
  pub same_calls : s'.job_calls ≡ s.job_calls

-- The same, read off the state that the update leaves.
pub Advanced-at_end :
    {id : String} {run : ValidationRun} {s s' : Stores}
    → Advanced id run s s'
    → Advanced id run s' s'
Advanced-at_end adv = record {
  after = adv.after;
  stored = adv.stored;
  counts = rw adv.same_queue adv.counts;
  completed = rw adv.same_queue adv.completed;
  unfinished = rw adv.same_queue adv.unfinished;
  not_running = adv.not_running;
  same_queue = refl;
  same_datasources = refl;
  same_results = refl;
  same_calls = refl;
}

finished_once :
    (i : QueueItem)
    → (if is_finished i then 1 else 0)
      ≡ (if i.status == "DONE" then 1 else 0)
        + (if i.status == "ERROR" then 1 else 0)
        + (if i.status == "CANCELLED" then 1 else 0)
finished_once i = elim (Bool-cases (i.status == "DONE")) [
  | inl e ↦ rw ((eq_iff i.status "DONE").0 e) refl
  | inr not_done ↦ elim (Bool-cases (i.status == "ERROR")) [
    | inl e ↦ rw ((eq_iff i.status "ERROR").0 e) refl
    | inr not_error ↦ rw (not_done, not_error) (omega arith)
  ]
]

tally-is_finished :
    (is : List QueueItem)
    → tally is_finished is
      ≡ with_status "DONE" is + with_status "ERROR" is + with_status "CANCELLED" is
tally-is_finished [] = refl
tally-is_finished (i ∷ is) = omega (arith, finished_once i, tally-is_finished is)

nil-of_sort : (is : List QueueItem) → is_nil (sort Queue.by_index is) ≡ is_nil is
nil-of_sort [] = refl
nil-of_sort (i ∷ is) = ground (arith, length-sort Queue.by_index (i ∷ is))

module _ (w : World) (id : String) (s : Stores) where
  tally-listed : tally is_finished (listed id s) ≡ finished_of id s
  tally-listed =
      tally-sort Queue.by_index is_finished (items_of id s) ∙ tally-is_finished (items_of id s)

  all_done-of :
      items_of id s ≢ [] → finished_of id s ≡ length (items_of id s) → all_done w id s ≡ true
  all_done-of nonempty all = ground (
    arith,
    nil-of_sort (items_of id s),
    length-sort Queue.by_index (items_of id s),
    tally-listed,
    nonempty,
  )

  not_done-of : finished_of id s < length (items_of id s) → all_done w id s ≡ false
  not_done-of fewer = ground (arith, length-sort Queue.by_index (items_of id s), tally-listed)

  module _ (run : ValidationRun) (found : find id s.runs ≡ some run) where
    refound_twice : (r q : ValidationRun) → find id (replace id r (replace id q s.runs)) ≡ some r
    refound_twice r q =
        rw (find-replace id id r (replace id q s.runs))
          (rw (eq_refl id, refound w id s run found q) refl)

    -- For a run that is there the update returns. The run then counts its items of status DONE, those
    -- of status ERROR and those of status CANCELLED, added up; it is COMPLETED if it was RUNNING and all of its items, at least one, are counted; its
    -- status is what it was if an item is left, or if it was not RUNNING. The queue, the data
    -- sources, the results and the search head are untouched.
    pub advance_run_progress_lem :
        ((advance_run_progress w id s).0 ≡ ok tt)
        × Advanced id run s (advance_run_progress w id s).1
    advance_run_progress_lem = elim (Bool-cases (all_done w id s)) [
      | inr open_run ↦ rw (advance-open w id s run found open_run) (
        refl,
        record {
          after = counted w id s run;
          stored = refound w id s run found _;
          counts = tally-listed;
          completed = λ _ some_item all. cc (all_done-of some_item all, open_run);
          unfinished = λ _. refl;
          not_running = λ _. refl;
          same_queue = refl;
          same_datasources = refl;
          same_results = refl;
          same_calls = refl;
        },
      )
      | inl closed ↦ elim (Bool-cases (run.status == run_status_running)) [
        | inr other ↦ rw (advance-closed w id s run found closed other) (
          refl,
          record {
            after = counted w id s run;
            stored = refound w id s run found _;
            counts = tally-listed;
            completed = λ e _ _. ground (arith, other, e, eq_iff run.status run_status_running);
            unfinished = λ _. refl;
            not_running = λ _. refl;
            same_queue = refl;
            same_datasources = refl;
            same_results = refl;
            same_calls = refl;
          },
        )
        | inl running ↦ rw (advance-completes w id s run found closed running) (
          refl,
          record {
            after = completed_at (w.time_at s.clock_reads) (counted w id s run);
            stored = refound_twice _ _;
            counts = tally-listed;
            completed = λ _ _ _. refl;
            unfinished = λ fewer. cc (not_done-of fewer, closed);
            not_running = λ ne. absurd (ne ((eq_iff run.status run_status_running).0 running));
            same_queue = refl;
            same_datasources = refl;
            same_results = refl;
            same_calls = refl;
          },
        )
      ]
    ]
