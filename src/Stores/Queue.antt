-- ===== src/Stores/Queue.antt =====
-- bin/app/models/validation_queue.py: ValidationQueueStore.
use app_datasource_validator.Prelude.{
  ◌||◌, ℕ, String, ◌==◌, Bool, true, ◌&&◌, Option, none, some, List, [], ◌∷◌, leb, sort, length,
}
use app_datasource_validator.Exec.{pure, for_each, ◌>>=◌, ◌>>◌}
use app_datasource_validator.Models.Queue.{
  QueueItem, queue_status_queued, queue_status_running, queue_status_cancelled,
}
use app_datasource_validator.Stores.{
  World, Action, queue_slot, insert, get_raw, require_raw, query, update, utcnow, new_id,
}

-- The dictionaries that `create_batch` is given.
pub record NewItem : Type 0 where
  pub platform_id : String
  pub datasource_id : String
  pub order_index : ℕ
  pub query_hash : String
  pub query_version : ℕ

abbrev pub by_index : QueueItem → QueueItem → Bool
by_index a b = leb a.order_index b.order_index

abbrev pub by_new_index : NewItem → NewItem → Bool
by_new_index a b = leb a.order_index b.order_index

-- A status filter that is absent lets everything through.
abbrev pub has_status : Option String → QueueItem → Bool
has_status none i = true
has_status (some s) i = s == "" || (i.status == s)

abbrev pub queued_item : String → String → NewItem → QueueItem
queued_item queue_id run_id item = record {
  queue_id = queue_id;
  run_id = run_id;
  platform_id = item.platform_id;
  datasource_id = item.datasource_id;
  order_index = item.order_index;
  status = queue_status_queued;
  query_hash = item.query_hash;
  query_version = item.query_version;
  sid = none;
  dispatched_time = none;
  completed_time = none;
}

-- What `mark_running` and `mark_done` write.
abbrev pub started : Option String → ℕ → QueueItem → QueueItem
started sid now current = record current {
  status = queue_status_running;
  sid = sid;
  dispatched_time = some now;
}

abbrev pub ended : String → ℕ → QueueItem → QueueItem
ended status now current = record current { status = status; completed_time = some now }

unfoldable pub get : String → Action (Option QueueItem)
unfolding get_raw
get queue_id = get_raw queue_slot queue_id

unfoldable pub list_for_run : String → Option String → Action (List QueueItem)
unfolding query ◌>>=◌
list_for_run run_id status = do
  found ← query queue_slot (λ i. i.run_id == run_id && has_status status i)
  pure (sort by_index found)

abbrev pub first : List QueueItem → Option QueueItem
first [] = none
first (i ∷ _) = some i

unfoldable pub find_any_running : Action (Option QueueItem)
unfolding query ◌>>=◌
find_any_running = do
  found ← query queue_slot (λ i. i.status == queue_status_running)
  pure (first found)

unfoldable pub count_global_status : String → Action ℕ
unfolding query ◌>>=◌
count_global_status status = do
  found ← query queue_slot (λ i. i.status == status)
  pure (length found)

module _ (w : World) where
  -- One round of the loop of `create_batch`.
  unfoldable pub create_one : String → NewItem → Action QueueItem
  unfolding new_id insert ◌>>=◌
  create_one run_id item = do
    queue_id ← new_id w "queue"
    let qi = queued_item queue_id run_id item
    insert queue_slot queue_id qi
    pure qi

  unfoldable pub create_each : String → List NewItem → Action (List QueueItem)
  unfolding create_one
  create_each run_id [] = pure []
  create_each run_id (item ∷ items) = do
    qi ← create_one run_id item
    rest ← create_each run_id items
    pure (qi ∷ rest)

  unfoldable pub create_batch : String → List NewItem → Action (List QueueItem)
  unfolding create_each
  create_batch run_id items = create_each run_id (sort by_new_index items)

  unfoldable pub mark_running : String → Option String → Action QueueItem
  unfolding require_raw utcnow update ◌>>=◌
  mark_running queue_id sid = do
    current ← require_raw queue_slot queue_id
    now ← utcnow w
    let item = started sid now current
    update queue_slot queue_id item
    pure item

  unfoldable pub mark_done : String → String → Action QueueItem
  unfolding require_raw utcnow update ◌>>=◌
  mark_done queue_id status = do
    current ← require_raw queue_slot queue_id
    now ← utcnow w
    let item = ended status now current
    update queue_slot queue_id item
    pure item

  unfoldable pub cancel_queued_for_run : String → Action (Unit {0})
  unfolding list_for_run mark_done for_each ◌>>=◌
  cancel_queued_for_run run_id = do
    items ← list_for_run run_id (some queue_status_queued)
    for_each items (λ i. mark_done i.queue_id queue_status_cancelled >> pure tt)
