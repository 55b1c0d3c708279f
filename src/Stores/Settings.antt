-- ===== src/Stores/Settings.antt =====
-- bin/app/models/settings.py: SettingsStore.
pub mod Latest
use app_datasource_validator.Prelude.{String, true, Option, none, some, List, map}
use app_datasource_validator.Exec.{pure, ◌>>=◌, ◌>>◌}
use app_datasource_validator.Json.{Json}
use app_datasource_validator.Models.Setting.{Setting}
use app_datasource_validator.Stores.{
  World, Action, setting_slot, insert, get_raw, query, update, delete, utcnow,
}

abbrev pub default_stale_threshold_sec : String
default_stale_threshold_sec = "default_stale_threshold_sec"

abbrev value_or : Option Setting → Json → Json
value_or none default = default
value_or (some doc) default = doc.value

unfoldable pub get : String → Json → Action Json
unfolding get_raw ◌>>=◌
get setting_id default = do doc ← get_raw setting_slot setting_id; pure (value_or doc default)

unfoldable pub get_all : Action (List (String × Json))
unfolding query ◌>>=◌
get_all = do docs ← query setting_slot (λ d. true); pure (map (λ d. (d.setting_id, d.value)) docs)

abbrev store_setting : Option Setting → String → Setting → Action (Unit {0})
store_setting none setting_id doc = insert setting_slot setting_id doc
store_setting (some _) setting_id doc = update setting_slot setting_id doc

unfoldable pub set_value : World → String → Json → Option String → Action Json
unfolding get_raw utcnow insert update ◌>>=◌
set_value w setting_id value updated_by = do
  existing ← get_raw setting_slot setting_id
  now ← utcnow w
  store_setting existing setting_id (record {
    setting_id = setting_id;
    value = value;
    updated_time = now;
    updated_by = updated_by;
  })
  pure value

unfoldable pub delete_setting : String → Action (Unit {0})
unfolding delete
delete_setting setting_id = delete setting_slot setting_id
