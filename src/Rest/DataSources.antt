-- ===== src/Rest/DataSources.antt =====
-- bin/rest_validation.py: DsvDatasourcesHandler and DsvDatasourceHandler.
use app_datasource_validator.Prelude.{
  ℤ, String, ◌==◌, Bool, false, ◌||◌, Option, none, some, List, is_some, if◌then◌else◌,
}
use app_datasource_validator.Text.{Text}
use app_datasource_validator.Query.{QueryValidator}
use app_datasource_validator.Exec.{rest_error, value_error, pure, raise, ◌>>=◌, ◌>>◌}
use app_datasource_validator.Models.DataSource.{DataSource}
use app_datasource_validator.Stores.{World, Action}
use app_datasource_validator.Stores.Checks.{checked_identifier}
use app_datasource_validator.Stores.Platforms
use app_datasource_validator.Stores.DataSources
use app_datasource_validator.Stores.DataSources.Edits.{
  NewDataSource, MetadataFields, create, update_metadata, delete_datasource,
}
use app_datasource_validator.Rest.{
  found, DataSourceView, collect, path_id, datasource_dict, default_stale_threshold,
  validate_query_or_raise,
}

-- `platform_id or ""`
abbrev or_blank : Option String → String
or_blank none = ""
or_blank (some s) = s

-- `if not spl_query: raise ValueError`
abbrev given_query : Option String → Action String
given_query none = raise value_error
given_query (some q) = if q == "" then raise value_error else pure q

-- None has no attributes: an internal error.
abbrev still_there : Option DataSource → Action DataSource
still_there none = raise rest_error
still_there (some ds) = pure ds

abbrev has_fields : MetadataFields → Bool
has_fields f =
    is_some f.name
    || is_some f.description
    || is_some f.sort_order
    || is_some f.enabled
    || is_some f.stale_threshold_sec

module _ (w : World) (to_int : Text → Option ℤ) where
  unfoldable pub get_datasources : Option String → Action (List DataSourceView)
  unfolding default_stale_threshold DataSources.list collect datasource_dict ◌>>=◌
  get_datasources platform_id = do
    threshold ← default_stale_threshold to_int
    datasources ← DataSources.list platform_id false
    collect datasources (datasource_dict w threshold)

  abbrev view : DataSource → Action DataSourceView
  view ds = do threshold ← default_stale_threshold to_int; datasource_dict w threshold ds

  unfoldable pub get_datasource : Option String → Action DataSourceView
  unfolding DataSources.get default_stale_threshold datasource_dict ◌>>=◌
  get_datasource path = do
    datasource_id ← path_id path
    existing ← DataSources.get datasource_id
    ds ← found existing
    view ds

  module _ (v : QueryValidator) (is_admin : Bool) (query_hash : Text → String) where
    -- The query is validated before anything is stored, then the platform is looked up.
    unfoldable pub post_datasource : Option String → NewDataSource → Action DataSourceView
    unfolding validate_query_or_raise checked_identifier Platforms.get create
        default_stale_threshold datasource_dict ◌>>=◌
    post_datasource spl_query d = do
      q ← given_query spl_query
      validate_query_or_raise v is_admin q
      platform_id ← checked_identifier (some (or_blank d.platform_id))
      platform ← Platforms.get platform_id
      found platform
      ds ← create w query_hash (record d { spl_query = q })
      view ds

    abbrev edit_query : String → Option String → Action (Unit {0})
    edit_query datasource_id none = pure tt
    edit_query datasource_id (some q) = if q == "" then pure tt else do
      validate_query_or_raise v is_admin q
      DataSources.update_query w query_hash datasource_id q
      pure tt

    abbrev edit_metadata : String → MetadataFields → Action (Unit {0})
    edit_metadata datasource_id fields =
        if has_fields fields then (update_metadata w datasource_id fields >> pure tt) else pure tt

    unfoldable pub put_datasource :
        Option String → Option String → MetadataFields → Action DataSourceView
    unfolding DataSources.get validate_query_or_raise DataSources.update_query update_metadata
        default_stale_threshold datasource_dict ◌>>=◌
    put_datasource path spl_query fields = do
      datasource_id ← path_id path
      existing ← DataSources.get datasource_id
      found existing
      edit_query datasource_id spl_query
      edit_metadata datasource_id fields
      edited ← DataSources.get datasource_id
      ds ← still_there edited
      view ds

unfoldable pub delete_handler : Option String → Action String
unfolding DataSources.get delete_datasource ◌>>=◌
delete_handler path = do
  datasource_id ← path_id path
  existing ← DataSources.get datasource_id
  found existing
  delete_datasource datasource_id
  pure datasource_id
