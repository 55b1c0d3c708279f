-- ===== src/Documents/Platforms.antt =====
-- bin/app/models/platform.py: `Platform.to_doc` and `Platform.from_doc`.
use app_datasource_validator.Prelude.{pos, ◌≡◌, refl, true, Option, some, [], ◌∷◌}
use app_datasource_validator.Json.{
  null, boolean, number, text, Fields, lookup, get_or, truthy, int_json,
}
use app_datasource_validator.Models.Platform.{Platform}
use app_datasource_validator.Documents.{
  Formats, ◌>>=◌, fields_of, as_text, int_of, optional_time, as_optional_time,
  as_optional_time-written,
}

module _ (f : Formats) where
  unfoldable pub to_doc : Platform → Fields
  to_doc p = fields_of (
      ("_key", text p.platform_id)
      ∷ ("platform_id", text p.platform_id)
      ∷ ("name", text p.name)
      ∷ ("description", text p.description)
      ∷ ("sort_order", number p.sort_order)
      ∷ ("enabled", boolean p.enabled)
      ∷ ("created_time", optional_time f p.created_time)
      ∷ ("updated_time", optional_time f p.updated_time)
      ∷ [])

  unfoldable pub from_doc : Fields → Option Platform
  unfolding get_or lookup truthy int_json
  from_doc doc = do
    platform_id ← as_text (get_or "platform_id" (get_or "_key" null doc) doc)
    name ← as_text (get_or "name" (text "") doc)
    description ← as_text (get_or "description" (text "") doc)
    sort_order ← int_of f (get_or "sort_order" (number (pos 0)) doc)
    created_time ← as_optional_time f (get_or "created_time" null doc)
    updated_time ← as_optional_time f (get_or "updated_time" null doc)
    some (record {
      platform_id = platform_id;
      name = name;
      description = description;
      sort_order = sort_order;
      enabled = truthy (get_or "enabled" (boolean true) doc);
      created_time = created_time;
      updated_time = updated_time;
    })

  -- A platform that is written as a document is read back as it was.
  pub platform-read_back : (p : Platform) → from_doc (to_doc p) ≡ some p
  unfolding from_doc to_doc
  platform-read_back p =
      rw (as_optional_time-written f p.created_time, as_optional_time-written f p.updated_time) refl
