-- ===== src/Stores/Platforms.antt =====
-- bin/app/models/platform.py: PlatformStore.
pub mod Edits
use app_datasource_validator.Prelude.{
  String, Bool, not, ◌&&◌, ◌||◌, Option, List, ltb_ℤ, leb_ℤ, sort,
}
use app_datasource_validator.Text.{codes, text_leb}
use app_datasource_validator.Exec.{pure, ◌>>=◌}
use app_datasource_validator.Models.Platform.{Platform}
use app_datasource_validator.Stores.{Action, platform_slot, get_raw, query}

abbrev pub by_order_and_name : Platform → Platform → Bool
by_order_and_name a b =
    ltb_ℤ a.sort_order b.sort_order
    || leb_ℤ a.sort_order b.sort_order && text_leb (codes a.name) (codes b.name)

unfoldable pub get : String → Action (Option Platform)
unfolding get_raw
get platform_id = get_raw platform_slot platform_id

unfoldable pub list : Bool → Action (List Platform)
unfolding query text_leb ◌>>=◌
list enabled_only = do
  found ← query platform_slot (λ p. not enabled_only || p.enabled)
  pure (sort by_order_and_name found)
