-- ===== src/Status.antt =====
-- bin/app/status_calculator.py: the display status of a data source and the rollup of a platform.
mod Table
pub mod Stale
pub mod Rollup
pub mod Enabled
mod Tests
use Prim.Native.String.{◌++◌ as append}
use app_datasource_validator.Prelude.{
  ℕ, ◌+◌, ◌*◌, ℤ, pos_part, neg_part, String, ◌==◌, Bool, true, false, not, ◌&&◌, ◌||◌, Option,
  none, some, List, any, all, keep, is_nil, ltb, or_else, if◌then◌else◌,
}
use app_datasource_validator.Models.DataSource.{
  DataSource, status_not_run, status_queued, status_running, status_pass, status_fail, status_error,
  status_cancelled,
}
use app_datasource_validator.Models.Platform.{Platform}
use app_datasource_validator.Status.Table.{
  Meta, disabled_meta, not_run_meta, datasource_status_meta, stale_label_suffix, stale_icon,
  stale_description, green_meta, amber_meta, red_meta, running_meta, grey_meta,
}
pub use app_datasource_validator.Status.Table.{disabled}

abbrev pub platform_green : String
platform_green = "green"

abbrev pub platform_amber : String
platform_amber = "amber"

abbrev pub platform_red : String
platform_red = "red"

abbrev pub platform_running : String
platform_running = "running"

abbrev pub platform_grey : String
platform_grey = "grey"

-- RUNNING_OR_QUEUED, FAIL_OR_ERROR and NOT_RUN_OR_CANCELLED, as membership tests.
abbrev pub running_or_queued : String → Bool
running_or_queued s = s == status_running || s == status_queued

abbrev pub fail_or_error : String → Bool
fail_or_error s = s == status_fail || s == status_error

abbrev pub not_run_or_cancelled : String → Bool
not_run_or_cancelled s = s == status_not_run || s == status_cancelled

pub record DisplayStatus : Type 0 where
  pub status : String
  pub stale : Bool
  pub label : String
  pub icon : String
  pub description : String

abbrev pub display : String → Bool → Meta → DisplayStatus
display s b m = record {
  status = s;
  stale = b;
  label = m.label;
  icon = m.icon;
  description = m.description;
}

-- `(now - last).total_seconds() > threshold`: times in milliseconds, the threshold in seconds,
-- both sides moved so that no term is negative.
abbrev pub older_than : ℕ → ℕ → ℤ → Bool
older_than now last threshold =
    ltb (last + 1000 * pos_part threshold) (now + 1000 * neg_part threshold)

-- The object's own threshold, or else the default.
abbrev pub effective_threshold : Option ℤ → Option ℤ → Option ℤ
effective_threshold none default = default
effective_threshold (some t) default = some t

abbrev pub beyond_threshold : ℕ → Option ℕ → Option ℤ → Bool
beyond_threshold now (some last) (some t) = older_than now last t
beyond_threshold now _ _ = false

-- `now` is given by the caller, or read from the clock.
unfoldable pub is_stale : DataSource → String → ℕ → Option ℤ → Bool
is_stale ds raw_status now default =
    raw_status == status_pass
    && beyond_threshold now ds.last_result_time (effective_threshold ds.stale_threshold_sec default)

-- `datasource.current_status or STATUS_NOT_RUN`: the empty text is falsy.
unfoldable pub raw_status_of : DataSource → String
raw_status_of ds = if ds.current_status == "" then status_not_run else ds.current_status

unfoldable pub compute_datasource_display_status : DataSource → ℕ → Option ℤ → DisplayStatus
unfolding is_stale raw_status_of datasource_status_meta
compute_datasource_display_status ds now default =
    if not ds.enabled
    then display disabled false disabled_meta
    else let raw_status = raw_status_of ds in
      let m = or_else (datasource_status_meta raw_status) not_run_meta in
      if is_stale ds raw_status now default
      then record {
        status = raw_status;
        stale = true;
        label = append m.label stale_label_suffix;
        icon = stale_icon;
        description = stale_description;
      }
      else display raw_status false m

abbrev pub is_enabled_child : DisplayStatus → Bool
is_enabled_child c = not (c.status == disabled)

unfoldable pub compute_platform_status : Platform → List DisplayStatus → DisplayStatus
compute_platform_status platform children =
    if not platform.enabled
    then display platform_grey false grey_meta
    else let enabled_children = keep is_enabled_child children in
      let all_pass = all (λ c. c.status == status_pass) enabled_children in
      let any_stale = any (λ c. c.stale) enabled_children in
      let waiting = any (λ c. not_run_or_cancelled c.status) enabled_children in
      if is_nil enabled_children
      then display platform_grey false grey_meta
      else if any (λ c. running_or_queued c.status) enabled_children
      then display platform_running false running_meta
      else if any (λ c. fail_or_error c.status) enabled_children
      then display platform_red false red_meta
      else if all_pass && not any_stale
      then display platform_green false green_meta
      else if all_pass && any_stale || waiting
      then display platform_amber any_stale amber_meta
      else display platform_amber any_stale amber_meta
