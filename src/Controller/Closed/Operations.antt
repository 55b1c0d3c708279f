-- ===== src/Controller/Closed/Operations.antt =====
-- The operations of the controller leave a closed queue item as it is.
use app_datasource_validator.Prelude.{
  String, ◌==◌, ◌≡◌, refl, ◌∙◌, ◌≢◌, ◌&&◌, Option, none, some, List, [], ◌∷◌, ◌++◌, arith, All,
  All-keep_passed, All-sort, sort, keep, inl, inr, Option-cases,
}
use app_datasource_validator.Kv.{find, replace, docs}
use app_datasource_validator.Exec.{pure, for_each, ◌>>◌}
use app_datasource_validator.Exec.Keeps.{Keeps, Keeps-bind, Keeps-pure}
use app_datasource_validator.Exec.Gives.{
  Gives, Gives-then-Keeps, Gives-then-Gives, Gives-pure, Keeps-for_each-All, Keeps-Gives,
}
use app_datasource_validator.Models.DataSource.{DataSource}
use app_datasource_validator.Models.Run.{ValidationRun, run_status_running}
use app_datasource_validator.Models.Queue.{QueueItem, queue_status_queued, queue_status_cancelled}
use app_datasource_validator.Stores.{World, Stores, Action}
use app_datasource_validator.Stores.Queue
use app_datasource_validator.Stores.Queue.{NewItem}
use app_datasource_validator.Stores.Runs
use app_datasource_validator.Executor.{ValidationOutcome}
use app_datasource_validator.Controller.{
  oldest_first, finalize, first_queued, find_next_queued, or_search, create_run, start_run,
  cancel_run, cancel_found, cancel_if_found, cancel_unless_running,
}
use app_datasource_validator.Controller.Frame.{framed_rules}
use app_datasource_validator.Controller.Frame.Operations.{
  update_status-Keeps, list_for_run-Keeps, run_create-Keeps, run_list-Keeps, run_cancel-Keeps,
  result_create-Keeps, advance-Keeps, platform_list-Keeps, datasource_list-Keeps,
}
use app_datasource_validator.Controller.Closed.{
  Holds, Holds-Framed, Sound-id, Holds-replace, Holds-append, open_apart,
}

module _ (k : String) where
  -- Items with another identifier.
  abbrev pub Others : List QueueItem → Type 0
  Others = All (λ q. q.queue_id ≢ k)

  abbrev pub Other : Option QueueItem → Type 0
  Other none = Unit
  Other (some q) = q.queue_id ≢ k

abbrev closing : World → QueueItem → Action (Unit {0})
closing w q = Queue.mark_done w q.queue_id queue_status_cancelled >> pure tt

module _ (k : String) {i : QueueItem} where
  -- An action that changes the item of another identifier, if it is there.
  change-Holds :
      {A : Type 0} (m : Action A) (id : String) (new : Stores → QueueItem → QueueItem)
      → ((s : Stores) (cur : QueueItem) → (new s cur).queue_id ≡ cur.queue_id)
      → ((s : Stores) → find id s.queue ≡ none → (m s).1.queue ≡ s.queue)
      → ((s : Stores) (cur : QueueItem)
          → find id s.queue ≡ some cur
          → (m s).1.queue ≡ replace id (new s cur) s.queue)
      → id ≢ k
      → Keeps (Holds k i) m
  change-Holds m id new same absent found other = record {
    from = λ s h. elim (Option-cases (find id s.queue)) [
      | inl e ↦ (Holds-Framed k).by_queue s (m s).1 (absent s e) h
      | inr (cur, e) ↦
          (Holds-Framed k).by_queue (record s { queue = replace id (new s cur) s.queue }) (m s).1
            (found s cur e)
            (Holds-replace k s h id (new s cur) (same s cur ∙ Sound-id k id s.queue cur h.sound e)
              other)
    ];
  }

  -- Items that wait are others.
  waiting-Others :
      (run_id : String)
      → Gives (Holds k i) (Others k) (Queue.list_for_run run_id (some queue_status_queued))
  unfolding Queue.list_for_run
  waiting-Others run_id = record {
    from = λ s h. (
      h,
      All-sort Queue.by_index (λ q. q.queue_id ≢ k) _
          (All-keep_passed
            (λ q. q.run_id == run_id && Queue.has_status (some queue_status_queued) q)
            (λ q passed other. other (ground (arith, passed))) (docs s.queue)
            (open_apart k s.queue h.sound)),
    );
  }

  module _ (w : World) where
    pub mark_done-Holds :
        (id status : String) → id ≢ k → Keeps (Holds k i) (Queue.mark_done w id status)
    unfolding Queue.mark_done
    mark_done-Holds id status =
        change-Holds (Queue.mark_done w id status) id
          (λ s. Queue.ended status (w.time_at s.clock_reads)) (λ s cur. refl)
          (λ s e. ground (arith, e)) (λ s cur e. ground (arith, e))

    pub mark_running-Holds :
        (id : String) (sid : Option String)
        → id ≢ k
        → Keeps (Holds k i) (Queue.mark_running w id sid)
    unfolding Queue.mark_running
    mark_running-Holds id sid =
        change-Holds (Queue.mark_running w id sid) id
          (λ s. Queue.started sid (w.time_at s.clock_reads)) (λ s cur. refl)
          (λ s e. ground (arith, e)) (λ s cur e. ground (arith, e))

    pub finalize-Holds :
        (item : QueueItem) (o : ValidationOutcome)
        → item.queue_id ≢ k
        → Keeps (Holds k i) (finalize w item o)
    unfolding finalize
    finalize-Holds item o other =
        search
          (
            framed_rules, Holds-Framed, mark_done-Holds, result_create-Keeps, update_status-Keeps,
            advance-Keeps, other,
          )
          depth 8

    create_one-Holds :
        (run_id : String) (item : NewItem) → Keeps (Holds k i) (Queue.create_one w run_id item)
    unfolding Queue.create_one
    create_one-Holds run_id item = record {
      from = λ s h.
          let id = w.identifier "queue" s.ids_made in
          let d = Queue.queued_item id run_id item in
          elim (Option-cases (find id s.queue)) [
            | inl e ↦
                (Holds-Framed k).by_queue (record s { queue = s.queue ++ (id, d) ∷ [] }) _
                  (ground (arith, e)) (Holds-append k s h id d refl e)
            | inr (cur, e) ↦ (Holds-Framed k).by_queue s _ (ground (arith, e)) h
          ];
    }

    create_each-Holds :
        (run_id : String) (items : List NewItem)
        → Keeps (Holds k i) (Queue.create_each w run_id items)
    unfolding Queue.create_each
    create_each-Holds run_id [] = Keeps-pure []
    create_each-Holds run_id (item ∷ items) =
        Keeps-bind _ _ (create_one-Holds run_id item)
          (λ qi. Keeps-bind _ _ (create_each-Holds run_id items) (λ rest. Keeps-pure _))

    create_batch-Holds :
        (run_id : String) (items : List NewItem)
        → Keeps (Holds k i) (Queue.create_batch w run_id items)
    unfolding Queue.create_batch
    create_batch-Holds run_id items = create_each-Holds run_id _

    start_run-Holds :
        (by trigger : String) (selected : List DataSource)
        → Keeps (Holds k i) (start_run w by trigger selected)
    unfolding start_run
    start_run-Holds by trigger selected =
        search
          (framed_rules, Holds-Framed, run_create-Keeps, create_batch-Holds, update_status-Keeps)
          depth 9

    pub create_run-Holds :
        (by trigger : String) (ids : Option (List String))
        → Keeps (Holds k i) (create_run w by trigger ids)
    unfolding create_run
    create_run-Holds by trigger ids =
        search
          (framed_rules, Holds-Framed, platform_list-Keeps, datasource_list-Keeps, start_run-Holds)
          depth 9

    closing-Holds : (q : QueueItem) → q.queue_id ≢ k → Keeps (Holds k i) (closing w q)
    closing-Holds q other =
        Keeps-bind (Queue.mark_done w q.queue_id queue_status_cancelled) (λ _. pure tt)
          (mark_done-Holds q.queue_id queue_status_cancelled other) (λ _. Keeps-pure tt)

    cancel_queued-Holds :
        (run_id : String) → Keeps (Holds k i) (Queue.cancel_queued_for_run w run_id)
    unfolding Queue.cancel_queued_for_run
    cancel_queued-Holds run_id =
        Gives-then-Keeps (Queue.list_for_run run_id (some queue_status_queued))
          (λ items. for_each items (closing w)) (waiting-Others run_id)
          (λ items others. Keeps-for_each-All items (closing w) others closing-Holds)

    cancel_unless-Holds :
        (run : ValidationRun) (id : String) → Keeps (Holds k i) (cancel_unless_running w run id)
    unfolding cancel_unless_running
    cancel_unless-Holds run id =
        search (framed_rules, Holds-Framed, list_for_run-Keeps, run_cancel-Keeps) depth 8

    cancel_found-Holds :
        (run : ValidationRun) (id : String) → Keeps (Holds k i) (cancel_found w run id)
    unfolding cancel_found
    cancel_found-Holds run id =
        search
          (
            framed_rules, Holds-Framed, cancel_queued-Holds, list_for_run-Keeps,
            update_status-Keeps, cancel_unless-Holds,
          )
          depth 9

    cancel_if-Holds :
        (run : Option ValidationRun) (id : String) → Keeps (Holds k i) (cancel_if_found w run id)
    cancel_if-Holds none id = search framed_rules
    cancel_if-Holds (some run) id = cancel_found-Holds run id

    pub cancel_run-Holds : (id : String) → Keeps (Holds k i) (cancel_run w id)
    unfolding cancel_run
    cancel_run-Holds id = search (framed_rules, cancel_if-Holds)

  or_search-Gives :
      (queued : List QueueItem) (rest : Action (Option QueueItem))
      → All (λ q. q.queue_id ≢ k) queued
      → Gives (Holds k i) (Other k) rest
      → Gives (Holds k i) (Other k) (or_search queued rest)
  or_search-Gives [] rest others g = g
  or_search-Gives (q ∷ qs) rest (other, others) g = Gives-pure (some q) other

  first_queued-Gives : (runs : List ValidationRun) → Gives (Holds k i) (Other k) (first_queued runs)
  unfolding first_queued
  first_queued-Gives [] = Gives-pure none tt
  first_queued-Gives (run ∷ runs) =
      Gives-then-Gives _ _ (waiting-Others run.run_id)
        λ queued others. or_search-Gives queued (first_queued runs) others (first_queued-Gives runs)

  pub find_next-Gives : World → Gives (Holds k i) (Other k) find_next_queued
  unfolding find_next_queued
  find_next-Gives w =
      let running =
        λ (runs : List ValidationRun). keep (λ r. r.status == run_status_running) runs in
      Gives-then-Gives (Runs.list none none)
        (λ runs. first_queued (sort oldest_first (running runs)))
        (Keeps-Gives _ (run_list-Keeps (Holds-Framed k) w none none))
        (λ runs _. first_queued-Gives (sort oldest_first (running runs)))
