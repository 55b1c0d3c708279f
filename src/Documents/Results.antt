-- ===== src/Documents/Results.antt =====
-- bin/app/models/validation_result.py: `ValidationResult.to_doc` and `ValidationResult.from_doc`. The
-- record tells where an error message comes from; the document has its text, which is given.
use app_datasource_validator.Prelude.{pos, String, ◌≡◌, refl, Option, none, some, [], ◌∷◌}
use app_datasource_validator.Json.{null, number, text, Fields, lookup, get_or, truthy, int_json}
use app_datasource_validator.Models.ValidationResult.{ErrorMessage, ValidationResult}
use app_datasource_validator.Documents.{
  Formats, ◌>>=◌, fields_of, as_text, as_count, int_of, time_text, as_time, as_optional_text,
  optional_text, as_optional_text-written,
}

abbrev pub text_of : (ErrorMessage → String) → Option ErrorMessage → Option String
text_of message_text none = none
text_of message_text (some m) = some (message_text m)

module _ (f : Formats) (message_text : ErrorMessage → String) where
  unfoldable pub to_doc : ValidationResult → Fields
  to_doc r = fields_of (
      ("_key", text r.result_id)
      ∷ ("result_id", text r.result_id)
      ∷ ("run_id", text r.run_id)
      ∷ ("queue_id", text r.queue_id)
      ∷ ("datasource_id", text r.datasource_id)
      ∷ ("platform_id", text r.platform_id)
      ∷ ("status", text r.status)
      ∷ ("result_count", number (pos r.result_count))
      ∷ ("query_hash", text r.query_hash)
      ∷ ("query_version", number (pos r.query_version))
      ∷ ("executed_time", time_text f r.executed_time)
      ∷ ("duration_ms", number (pos r.duration_ms))
      ∷ ("error_message", optional_text (text_of message_text r.error_message))
      ∷ [])

module _ (f : Formats) where
  -- What is read: the record but for its error message, and the text of that.
  unfoldable pub from_doc : Fields → Option (ValidationResult × Option String)
  unfolding get_or lookup truthy int_json
  from_doc doc = do
    result_id ← as_text (get_or "result_id" (get_or "_key" null doc) doc)
    run_id ← as_text (get_or "run_id" (text "") doc)
    queue_id ← as_text (get_or "queue_id" (text "") doc)
    datasource_id ← as_text (get_or "datasource_id" (text "") doc)
    platform_id ← as_text (get_or "platform_id" (text "") doc)
    status ← as_text (get_or "status" (text "") doc)
    result_count ← as_count (int_of f (get_or "result_count" (number (pos 0)) doc))
    query_hash ← as_text (get_or "query_hash" (text "") doc)
    query_version ← as_count (int_of f (get_or "query_version" (number (pos 1)) doc))
    executed_time ← as_time f (get_or "executed_time" null doc)
    duration_ms ← as_count (int_of f (get_or "duration_ms" (number (pos 0)) doc))
    error_message ← as_optional_text (get_or "error_message" null doc)
    some (
      record {
        result_id = result_id;
        run_id = run_id;
        queue_id = queue_id;
        datasource_id = datasource_id;
        platform_id = platform_id;
        status = status;
        result_count = result_count;
        query_hash = query_hash;
        query_version = query_version;
        executed_time = executed_time;
        duration_ms = duration_ms;
        error_message = none;
      },
      error_message,
    )

-- A result that is written as a document is read back as it was, its error message as its text.
pub result-read_back :
    (f : Formats) (message_text : ErrorMessage → String) (r : ValidationResult)
    → from_doc f (to_doc f message_text r)
      ≡ some (record r { error_message = none }, text_of message_text r.error_message)
unfolding from_doc to_doc
result-read_back f message_text r =
    rw
      (
        f.read_iso-iso r.executed_time,
        as_optional_text-written (text_of message_text r.error_message),
      )
      refl
