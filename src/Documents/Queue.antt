-- ===== src/Documents/Queue.antt =====
-- bin/app/models/validation_queue.py: `QueueItem.to_doc` and `QueueItem.from_doc`.
use app_datasource_validator.Prelude.{pos, ◌≡◌, refl, Option, some, [], ◌∷◌}
use app_datasource_validator.Json.{null, number, text, Fields, lookup, get_or, truthy, int_json}
use app_datasource_validator.Models.Queue.{QueueItem, queue_status_queued}
use app_datasource_validator.Documents.{
  Formats, ◌>>=◌, fields_of, as_text, as_optional_text, optional_text, as_count, int_of,
  optional_time, as_optional_time, as_optional_time-written, as_optional_text-written,
}

module _ (f : Formats) where
  unfoldable pub to_doc : QueueItem → Fields
  to_doc i = fields_of (
      ("_key", text i.queue_id)
      ∷ ("queue_id", text i.queue_id)
      ∷ ("run_id", text i.run_id)
      ∷ ("platform_id", text i.platform_id)
      ∷ ("datasource_id", text i.datasource_id)
      ∷ ("order_index", number (pos i.order_index))
      ∷ ("status", text i.status)
      ∷ ("query_hash", text i.query_hash)
      ∷ ("query_version", number (pos i.query_version))
      ∷ ("sid", optional_text i.sid)
      ∷ ("dispatched_time", optional_time f i.dispatched_time)
      ∷ ("completed_time", optional_time f i.completed_time)
      ∷ [])

  unfoldable pub from_doc : Fields → Option QueueItem
  unfolding get_or lookup truthy int_json
  from_doc doc = do
    queue_id ← as_text (get_or "queue_id" (get_or "_key" null doc) doc)
    run_id ← as_text (get_or "run_id" (text "") doc)
    platform_id ← as_text (get_or "platform_id" (text "") doc)
    datasource_id ← as_text (get_or "datasource_id" (text "") doc)
    order_index ← as_count (int_of f (get_or "order_index" (number (pos 0)) doc))
    status ← as_text (get_or "status" (text queue_status_queued) doc)
    query_hash ← as_text (get_or "query_hash" (text "") doc)
    query_version ← as_count (int_of f (get_or "query_version" (number (pos 1)) doc))
    sid ← as_optional_text (get_or "sid" null doc)
    dispatched_time ← as_optional_time f (get_or "dispatched_time" null doc)
    completed_time ← as_optional_time f (get_or "completed_time" null doc)
    some (record {
      queue_id = queue_id;
      run_id = run_id;
      platform_id = platform_id;
      datasource_id = datasource_id;
      order_index = order_index;
      status = status;
      query_hash = query_hash;
      query_version = query_version;
      sid = sid;
      dispatched_time = dispatched_time;
      completed_time = completed_time;
    })

  -- A queue item that is written as a document is read back as it was.
  pub queue_item-read_back : (i : QueueItem) → from_doc (to_doc i) ≡ some i
  unfolding from_doc to_doc
  queue_item-read_back i =
      rw
        (
          as_optional_text-written i.sid,
          as_optional_time-written f i.dispatched_time,
          as_optional_time-written f i.completed_time,
        )
        refl
