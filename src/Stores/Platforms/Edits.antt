-- ===== src/Stores/Platforms/Edits.antt =====
-- bin/app/models/platform.py: creating, updating and deleting platforms. The fields of an update are
-- those it allows; the value of a field has the type that the record has.
use app_datasource_validator.Prelude.{ℕ, ℤ, String, Bool, Option, some}
use app_datasource_validator.Exec.{pure, ◌>>=◌, ◌>>◌}
use app_datasource_validator.Models.Platform.{Platform}
use app_datasource_validator.Stores.{
  World, Action, platform_slot, insert, require_raw, update, delete, utcnow,
}
use app_datasource_validator.Stores.Checks.{
  checked_identifier, checked_text, checked_field, or_current,
}

pub record PlatformFields : Type 0 where
  pub name : Option String
  pub description : Option String
  pub sort_order : Option ℤ
  pub enabled : Option Bool

abbrev pub with_fields : PlatformFields → ℕ → Platform → Platform
with_fields fields now current = record current {
  name = or_current fields.name current.name;
  description = or_current fields.description current.description;
  sort_order = or_current fields.sort_order current.sort_order;
  enabled = or_current fields.enabled current.enabled;
  updated_time = some now;
}

module _ (w : World) where
  unfoldable pub create : Option String → Option String → Option String → ℤ → Bool → Action Platform
  unfolding checked_identifier checked_text utcnow insert ◌>>=◌
  create platform_id name description sort_order enabled = do
    key ← checked_identifier platform_id
    shown_name ← checked_text name 200
    text ← checked_text description 1000
    now ← utcnow w
    let platform : Platform = record {
      platform_id = key;
      name = shown_name;
      description = text;
      sort_order = sort_order;
      enabled = enabled;
      created_time = some now;
      updated_time = some now;
    }
    insert platform_slot key platform
    pure platform

  unfoldable pub update_fields : String → PlatformFields → Action Platform
  unfolding checked_field require_raw utcnow update ◌>>=◌
  update_fields platform_id fields = do
    checked_field fields.name 200
    checked_field fields.description 1000
    current ← require_raw platform_slot platform_id
    now ← utcnow w
    let platform = with_fields fields now current
    update platform_slot platform_id platform
    pure platform

unfoldable pub delete_platform : String → Action (Unit {0})
unfolding delete
delete_platform platform_id = delete platform_slot platform_id
