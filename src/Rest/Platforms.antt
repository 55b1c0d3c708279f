-- ===== src/Rest/Platforms.antt =====
-- bin/rest_validation.py: DsvPlatformsHandler and DsvPlatformHandler.
pub mod Deletion
use app_datasource_validator.Prelude.{
  ℤ, String, ◌==◌, Bool, false, Option, none, some, List, [], ◌∷◌, if◌then◌else◌,
}
use app_datasource_validator.Text.{Text}
use app_datasource_validator.Exec.{pure, for_each, ◌>>=◌, ◌>>◌}
use app_datasource_validator.Models.DataSource.{DataSource}
use app_datasource_validator.Models.Platform.{Platform}
use app_datasource_validator.Status.{DisplayStatus}
use app_datasource_validator.Stores.{World, Action}
use app_datasource_validator.Stores.DataSources
use app_datasource_validator.Stores.DataSources.Edits.{delete_datasource}
use app_datasource_validator.Stores.Platforms
use app_datasource_validator.Stores.Platforms.Edits.{
  PlatformFields, create, update_fields, delete_platform,
}
use app_datasource_validator.Rest.{
  found, PlatformView, collect, path_id, platform_dict, default_stale_threshold, show_status,
}

-- A data source with its display status; `by_platform` groups the statuses by `platform_id`.
abbrev with_status_of : World → Option ℤ → DataSource → Action (String × DisplayStatus)
with_status_of w threshold ds = do shown ← show_status w threshold ds; pure (ds.platform_id, shown)

abbrev children_of : String → List (String × DisplayStatus) → List DisplayStatus
children_of platform_id [] = []
children_of platform_id ((p, shown) ∷ rest) =
    let later = children_of platform_id rest in if p == platform_id then shown ∷ later else later

module _ (w : World) (to_int : Text → Option ℤ) where
  unfoldable pub get_platforms : Action (List PlatformView)
  unfolding default_stale_threshold Platforms.list DataSources.list collect show_status
      platform_dict ◌>>=◌
  get_platforms = do
    threshold ← default_stale_threshold to_int
    platforms ← Platforms.list false
    datasources ← DataSources.list none false
    by_platform ← collect datasources (with_status_of w threshold)
    collect platforms (λ p. pure (platform_dict p (children_of p.platform_id by_platform)))

  unfoldable pub post_platform :
      Option String → Option String → Option String → ℤ → Bool → Action PlatformView
  unfolding create platform_dict ◌>>=◌
  post_platform platform_id name description sort_order enabled = do
    platform ← create w platform_id name description sort_order enabled
    pure (platform_dict platform [])

  -- The rest of both handlers below.
  abbrev view : String → Platform → Action PlatformView
  view platform_id platform = do
    threshold ← default_stale_threshold to_int
    datasources ← DataSources.list (some platform_id) false
    children ← collect datasources (show_status w threshold)
    pure (platform_dict platform children)

  unfoldable pub get_platform : Option String → Action PlatformView
  unfolding Platforms.get default_stale_threshold DataSources.list collect show_status platform_dict
      ◌>>=◌
  get_platform path = do
    platform_id ← path_id path
    existing ← Platforms.get platform_id
    platform ← found existing
    view platform_id platform

  unfoldable pub put_platform : Option String → PlatformFields → Action PlatformView
  unfolding update_fields default_stale_threshold DataSources.list collect show_status platform_dict
      ◌>>=◌
  put_platform path fields = do
    platform_id ← path_id path
    platform ← update_fields w platform_id fields
    view platform_id platform

-- The data sources of the platform are deleted before the platform.
unfoldable pub delete_handler : Option String → Action String
unfolding Platforms.get DataSources.list delete_datasource delete_platform for_each ◌>>=◌
delete_handler path = do
  platform_id ← path_id path
  existing ← Platforms.get platform_id
  found existing
  datasources ← DataSources.list (some platform_id) false
  for_each datasources (λ ds. delete_datasource ds.datasource_id)
  delete_platform platform_id
  pure platform_id
