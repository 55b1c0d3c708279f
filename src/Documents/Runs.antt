-- ===== src/Documents/Runs.antt =====
-- bin/app/models/validation_run.py: `ValidationRun.to_doc` and `ValidationRun.from_doc`.
use app_datasource_validator.Prelude.{pos, ◌≡◌, refl, Option, some, [], ◌∷◌}
use app_datasource_validator.Json.{null, number, text, Fields, lookup, get_or, truthy, int_json}
use app_datasource_validator.Models.Run.{ValidationRun, run_status_running}
use app_datasource_validator.Documents.{
  Formats, ◌>>=◌, fields_of, as_text, as_count, int_of, time_text, optional_time, as_time,
  as_optional_time, as_optional_time-written,
}

module _ (f : Formats) where
  unfoldable pub to_doc : ValidationRun → Fields
  to_doc r = fields_of (
      ("_key", text r.run_id)
      ∷ ("run_id", text r.run_id)
      ∷ ("created_time", time_text f r.created_time)
      ∷ ("created_by", text r.created_by)
      ∷ ("trigger_type", text r.trigger_type)
      ∷ ("status", text r.status)
      ∷ ("total_items", number (pos r.total_items))
      ∷ ("completed_items", number (pos r.completed_items))
      ∷ ("completed_time", optional_time f r.completed_time)
      ∷ [])

  unfoldable pub from_doc : Fields → Option ValidationRun
  unfolding get_or lookup truthy int_json
  from_doc doc = do
    run_id ← as_text (get_or "run_id" (get_or "_key" null doc) doc)
    created_time ← as_time f (get_or "created_time" null doc)
    created_by ← as_text (get_or "created_by" (text "") doc)
    trigger_type ← as_text (get_or "trigger_type" (text "manual") doc)
    status ← as_text (get_or "status" (text run_status_running) doc)
    total_items ← as_count (int_of f (get_or "total_items" (number (pos 0)) doc))
    completed_items ← as_count (int_of f (get_or "completed_items" (number (pos 0)) doc))
    completed_time ← as_optional_time f (get_or "completed_time" null doc)
    some (record {
      run_id = run_id;
      created_time = created_time;
      created_by = created_by;
      trigger_type = trigger_type;
      status = status;
      total_items = total_items;
      completed_items = completed_items;
      completed_time = completed_time;
    })

  -- A run that is written as a document is read back as it was.
  pub run-read_back : (r : ValidationRun) → from_doc (to_doc r) ≡ some r
  unfolding from_doc to_doc
  run-read_back r =
      rw (f.read_iso-iso r.created_time, as_optional_time-written f r.completed_time) refl
