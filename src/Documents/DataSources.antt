-- ===== src/Documents/DataSources.antt =====
-- bin/app/models/datasource.py: `DataSource.to_doc` and `DataSource.from_doc`.
use app_datasource_validator.Prelude.{pos, ◌≡◌, refl, true, Option, some, [], ◌∷◌}
use app_datasource_validator.Json.{
  null, boolean, number, text, Fields, lookup, get_or, truthy, int_json,
}
use app_datasource_validator.Models.DataSource.{DataSource, status_not_run}
use app_datasource_validator.Documents.{
  Formats, ◌>>=◌, fields_of, as_text, as_optional_text, optional_text, as_optional_number,
  optional_number, as_count, int_of, optional_time, as_optional_time, as_optional_time-written,
  as_optional_text-written, as_optional_number-written,
}

module _ (f : Formats) where
  unfoldable pub to_doc : DataSource → Fields
  to_doc ds = fields_of (
      ("_key", text ds.datasource_id)
      ∷ ("datasource_id", text ds.datasource_id)
      ∷ ("platform_id", text ds.platform_id)
      ∷ ("name", text ds.name)
      ∷ ("description", text ds.description)
      ∷ ("spl_query", text ds.spl_query)
      ∷ ("query_hash", text ds.query_hash)
      ∷ ("query_version", number (pos ds.query_version))
      ∷ ("sort_order", number ds.sort_order)
      ∷ ("enabled", boolean ds.enabled)
      ∷ ("stale_threshold_sec", optional_number ds.stale_threshold_sec)
      ∷ ("current_status", text ds.current_status)
      ∷ ("last_result_time", optional_time f ds.last_result_time)
      ∷ ("last_run_id", optional_text ds.last_run_id)
      ∷ ("created_time", optional_time f ds.created_time)
      ∷ ("updated_time", optional_time f ds.updated_time)
      ∷ [])

  unfoldable pub from_doc : Fields → Option DataSource
  unfolding get_or lookup truthy int_json
  from_doc doc = do
    datasource_id ← as_text (get_or "datasource_id" (get_or "_key" null doc) doc)
    platform_id ← as_text (get_or "platform_id" (text "") doc)
    name ← as_text (get_or "name" (text "") doc)
    spl_query ← as_text (get_or "spl_query" (text "") doc)
    description ← as_text (get_or "description" (text "") doc)
    query_hash ← as_text (get_or "query_hash" (text "") doc)
    query_version ← as_count (int_of f (get_or "query_version" (number (pos 1)) doc))
    sort_order ← int_of f (get_or "sort_order" (number (pos 0)) doc)
    stale_threshold_sec ← as_optional_number (get_or "stale_threshold_sec" null doc)
    current_status ← as_text (get_or "current_status" (text status_not_run) doc)
    last_result_time ← as_optional_time f (get_or "last_result_time" null doc)
    last_run_id ← as_optional_text (get_or "last_run_id" null doc)
    created_time ← as_optional_time f (get_or "created_time" null doc)
    updated_time ← as_optional_time f (get_or "updated_time" null doc)
    some (record {
      datasource_id = datasource_id;
      platform_id = platform_id;
      name = name;
      spl_query = spl_query;
      description = description;
      query_hash = query_hash;
      query_version = query_version;
      sort_order = sort_order;
      enabled = truthy (get_or "enabled" (boolean true) doc);
      stale_threshold_sec = stale_threshold_sec;
      current_status = current_status;
      last_result_time = last_result_time;
      last_run_id = last_run_id;
      created_time = created_time;
      updated_time = updated_time;
    })

  -- A data source that is written as a document is read back as it was.
  pub datasource-read_back : (ds : DataSource) → from_doc (to_doc ds) ≡ some ds
  unfolding from_doc to_doc
  datasource-read_back ds =
      rw
        (
          as_optional_number-written ds.stale_threshold_sec,
          as_optional_time-written f ds.last_result_time,
          as_optional_text-written ds.last_run_id,
          as_optional_time-written f ds.created_time,
          as_optional_time-written f ds.updated_time,
        )
        refl
