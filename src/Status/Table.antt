-- ===== src/Status/Table.antt =====
-- bin/app/status_calculator.py: the tables of labels, icons and descriptions.
use app_datasource_validator.Prelude.{String, ◌==◌, Option, none, some, if◌then◌else◌}
use app_datasource_validator.Models.DataSource.{
  status_not_run, status_queued, status_running, status_pass, status_fail, status_error,
  status_cancelled,
}

abbrev pub disabled : String
disabled = "DISABLED"

pub record Meta : Type 0 where
  pub label : String
  pub icon : String
  pub description : String

abbrev pub meta : String → String → String → Meta
meta l i d = record { label = l; icon = i; description = d }

-- DATASOURCE_STATUS_META[DISABLED] and DATASOURCE_STATUS_META[STATUS_NOT_RUN]
abbrev pub disabled_meta : Meta
disabled_meta =
    meta "Disabled" "circle-off"
      "This data source is disabled and is excluded from its platform's status."

abbrev pub not_run_meta : Meta
not_run_meta = meta "Not Run" "minus-circle" "This data source has not been validated yet."

-- DATASOURCE_STATUS_META, as the `.get` that reads it: `none` is a missing key.
unfoldable pub datasource_status_meta : String → Option Meta
datasource_status_meta s =
    if s == status_pass
    then some (
        meta "Pass" "check-circle"
          "The last run of this data source's search returned at least one event.")
    else if s == status_fail
    then some (
        meta "Fail" "x-circle"
          "The last run of this data source's search completed but returned zero events.")
    else if s == status_error
    then some (
        meta "Error" "alert-triangle"
          "The last run of this data source's search could not complete.")
    else if s == status_running
    then some
        (meta "Running" "spinner" "This data source's validation search is currently executing.")
    else if s == status_queued
    then some
        (meta "Queued" "clock" "Waiting for the single validation worker to dispatch this search.")
    else if s == status_not_run
    then some not_run_meta
    else if s == status_cancelled
    then some (
        meta "Cancelled" "slash-circle"
          "The validation run was cancelled before this data source completed.")
    else if s == disabled
    then some disabled_meta
    else none

abbrev pub stale_label_suffix : String
stale_label_suffix = " (Stale)"

abbrev pub stale_icon : String
stale_icon = "check-circle-warning"

abbrev pub stale_description : String
stale_description =
    "The last known result was a pass, but it is older than the configured staleness threshold - it may no longer reflect reality."

-- PLATFORM_STATUS_META
abbrev pub green_meta : Meta
green_meta =
    meta "Healthy" "check-circle" "Every enabled data source under this platform is a fresh pass."

abbrev pub amber_meta : Meta
amber_meta =
    meta "Attention" "alert-circle"
      "Every enabled data source is passing, but at least one result is stale, not yet run, or was cancelled."

abbrev pub red_meta : Meta
red_meta =
    meta "Failing" "x-circle"
      "At least one enabled data source under this platform is failing or errored."

abbrev pub running_meta : Meta
running_meta =
    meta "Validating" "spinner" "A validation run is currently in progress for this platform."

abbrev pub grey_meta : Meta
grey_meta = meta "Inactive" "circle-off" "This platform is disabled or has no enabled data sources."
