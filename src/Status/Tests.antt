-- ===== src/Status/Tests.antt =====
-- The status functions at concrete platforms and data sources.
use app_datasource_validator.Prelude.{
  ℕ, ℤ, pos, String, ◌≡◌, refl, Bool, true, false, none, some, [], ◌∷◌, arith,
}
use app_datasource_validator.Models.DataSource.{
  DataSource, status_pass, status_fail, status_cancelled,
}
use app_datasource_validator.Models.Platform.{Platform}
use app_datasource_validator.Status.{
  DisplayStatus, compute_datasource_display_status, compute_platform_status, platform_green,
  platform_amber,
}
use app_datasource_validator.Status.Rollup.{platform-status_iff}
use app_datasource_validator.Status.Enabled.{platform-without_disabled}
use app_datasource_validator.Status.Stale.{
  IsOlder, IsThreshold, datasource-stale_iff, datasource-stale_later,
}

abbrev linux : Platform
linux = record {
  platform_id = "linux";
  name = "Linux";
  description = "";
  sort_order = pos 0;
  enabled = true;
  created_time = none;
  updated_time = none;
}

abbrev source : String → Bool → DataSource
source status on = record {
  datasource_id = "syslog";
  platform_id = "linux";
  name = "Syslog";
  spl_query = "index=os";
  description = "";
  query_hash = "h";
  query_version = 1;
  sort_order = pos 0;
  enabled = on;
  stale_threshold_sec = some (pos 60);
  current_status = status;
  last_result_time = some 1000;
  last_run_id = none;
  created_time = none;
  updated_time = none;
}

abbrev shown : String → Bool → DisplayStatus
shown status on = compute_datasource_display_status (source status on) 2000 none

status_program : Unit {0}
unfolding compute_datasource_display_status compute_platform_status
status_program = tt

fresh_pass : (shown status_pass true).label ≡ "Pass"
unfolding status_program
fresh_pass = refl

stale_pass :
    (compute_datasource_display_status (source status_pass true) 61001 none).label ≡ "Pass (Stale)"
unfolding status_program
stale_pass = refl

cancelled_is_amber :
    (compute_platform_status linux
      (shown status_pass true ∷ shown status_cancelled true ∷ [])).status
    ≡ platform_amber
unfolding status_program
cancelled_is_amber = refl

platform-status_iff_example :
    (compute_platform_status linux (shown status_pass true ∷ shown status_fail false ∷ [])).status
    ≡ platform_green
unfolding status_program
platform-status_iff_example =
    (platform-status_iff linux (shown status_pass true ∷ shown status_fail false ∷ [])).0.1
      (refl, λ e. cc, ((refl, refl), tt))

platform-without_disabled_example :
    compute_platform_status linux (shown status_fail false ∷ shown status_pass true ∷ [])
    ≡ compute_platform_status linux (shown status_pass true ∷ [])
unfolding status_program
platform-without_disabled_example =
    platform-without_disabled linux [] (shown status_pass true ∷ []) (shown status_fail false) refl

datasource-stale_iff_example :
    ((source status_pass true).enabled ≡ true)
    × ((source status_pass true).current_status ≡ status_pass)
    × ((last : ℕ) × (t : ℤ) × ((source status_pass true).last_result_time ≡ some last)
        × IsThreshold (source status_pass true).stale_threshold_sec none t
        × IsOlder 61001 last t)
unfolding status_program
datasource-stale_iff_example = (datasource-stale_iff (source status_pass true) 61001 none).0 refl

stays_stale : (compute_datasource_display_status (source status_pass true) 70000 none).stale ≡ true
unfolding status_program
stays_stale = datasource-stale_later (source status_pass true) 61001 70000 none (omega arith) refl
