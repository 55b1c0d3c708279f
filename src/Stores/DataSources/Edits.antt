-- ===== src/Stores/DataSources/Edits.antt =====
-- bin/app/models/datasource.py: creating, updating and deleting data sources. The fields of an update
-- are those it allows; the value of a field has the type that the record has.
use app_datasource_validator.Prelude.{ℕ, ℤ, String, Bool, Option, none, some, is_nil, if◌then◌else◌}
use app_datasource_validator.Text.{Text, codes, strip}
use app_datasource_validator.Exec.{value_error, pure, raise, ◌>>=◌, ◌>>◌}
use app_datasource_validator.Models.DataSource.{DataSource, status_not_run}
use app_datasource_validator.Stores.{
  World, Action, datasource_slot, insert, require_raw, update, delete, utcnow,
}
use app_datasource_validator.Stores.Checks.{
  checked_identifier, checked_text, checked_field, or_current,
}

pub record MetadataFields : Type 0 where
  pub name : Option String
  pub description : Option String
  pub sort_order : Option ℤ
  pub enabled : Option Bool
  pub stale_threshold_sec : Option (Option ℤ)

abbrev pub with_metadata : MetadataFields → ℕ → DataSource → DataSource
with_metadata fields now current = record current {
  name = or_current fields.name current.name;
  description = or_current fields.description current.description;
  sort_order = or_current fields.sort_order current.sort_order;
  enabled = or_current fields.enabled current.enabled;
  stale_threshold_sec = or_current fields.stale_threshold_sec current.stale_threshold_sec;
  updated_time = some now;
}

-- The data source that `create` is asked for, before its checks.
pub record NewDataSource : Type 0 where
  pub datasource_id : Option String
  pub platform_id : Option String
  pub name : Option String
  pub spl_query : String
  pub description : Option String
  pub sort_order : ℤ
  pub enabled : Bool
  pub stale_threshold_sec : Option ℤ

module _ (w : World) where
  unfoldable pub create : (Text → String) → NewDataSource → Action DataSource
  unfolding checked_identifier checked_text utcnow insert strip raise ◌>>=◌
  create query_hash d = do
    key ← checked_identifier d.datasource_id
    platform_key ← checked_identifier d.platform_id
    shown_name ← checked_text d.name 200
    text ← checked_text d.description 1000
    if is_nil (strip (codes d.spl_query)) then raise value_error else do
      now ← utcnow w
      let ds : DataSource = record {
        datasource_id = key;
        platform_id = platform_key;
        name = shown_name;
        spl_query = d.spl_query;
        description = text;
        query_hash = query_hash (codes d.spl_query);
        query_version = 1;
        sort_order = d.sort_order;
        enabled = d.enabled;
        stale_threshold_sec = d.stale_threshold_sec;
        current_status = status_not_run;
        last_result_time = none;
        last_run_id = none;
        created_time = some now;
        updated_time = some now;
      }
      insert datasource_slot key ds
      pure ds

  unfoldable pub update_metadata : String → MetadataFields → Action DataSource
  unfolding checked_field require_raw utcnow update ◌>>=◌
  update_metadata datasource_id fields = do
    checked_field fields.name 200
    checked_field fields.description 1000
    current ← require_raw datasource_slot datasource_id
    now ← utcnow w
    let ds = with_metadata fields now current
    update datasource_slot datasource_id ds
    pure ds

unfoldable pub delete_datasource : String → Action (Unit {0})
unfolding delete
delete_datasource datasource_id = delete datasource_slot datasource_id
