-- ===== src/Rest/Rejected.antt =====
-- A query that the validator rejects is never stored.
use app_datasource_validator.Text.{Text}
use app_datasource_validator.Models.DataSource.{DataSource}
use app_datasource_validator.Stores.{Stores}
