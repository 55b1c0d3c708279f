-- ===== src/Rest.antt =====
-- bin/rest_validation.py: what the handlers share. A request is already parsed, and a field of its
-- payload has the type that the stores expect.
pub mod Platforms
pub mod DataSources
pub mod Runs
pub mod Rejected
pub mod Health
pub mod QueryTest
pub mod Config
pub mod Base
mod Tests
mod EndpointTests
use app_datasource_validator.Prelude.{
  ℕ, ℤ, pos, String, ◌==◌, Bool, true, false, ◌&&◌, Option, none, some, List, [], ◌∷◌, length,
  is_some, leb_ℤ, if◌then◌else◌,
}
use app_datasource_validator.Text.{Text, codes}
use app_datasource_validator.Query.{QueryValidator, validate}
use app_datasource_validator.Exec.{
  Error, validation_error, capability_error, credential_error, not_found, value_error, key_error,
  rest_error, Result, ok, err, pure, raise, lift, ◌>>=◌, ◌>>◌,
}
use app_datasource_validator.Models.DataSource.{DataSource, status_pass}
use app_datasource_validator.Models.Platform.{Platform}
use app_datasource_validator.Json.{Json, null, truthy, int_json}
use app_datasource_validator.Status.{
  DisplayStatus, compute_datasource_display_status, compute_platform_status, effective_threshold,
  raw_status_of,
}
use app_datasource_validator.Stores.{World, Action, utcnow}
use app_datasource_validator.Stores.Settings
use app_datasource_validator.Stores.Settings.{default_stale_threshold_sec}

-- The status code of each exception class; a class with no clause of its own is an internal error.
unfoldable pub error_status : Error → ℕ
error_status validation_error = 400
error_status capability_error = 403
error_status credential_error = 400
error_status not_found = 404
error_status value_error = 400
error_status key_error = 500
error_status rest_error = 500

abbrev pub response_status {ℓ} : {A : Type ℓ} → ℕ → Result A → ℕ
response_status success (ok a) = success
response_status success (err e) = error_status e

-- `[body(x) for x in xs]`
unfoldable pub collect : {A B : Type 0} → List A → (A → Action B) → Action (List B)
unfolding ◌>>=◌
collect [] body = pure []
collect (x ∷ xs) body = do y ← body x; ys ← collect xs body; pure (y ∷ ys)

-- The first segment of the path, or ValueError.
abbrev pub path_id : Option String → Action String
path_id none = raise value_error
path_id (some key) = pure key

abbrev pub found : {A : Type 0} → Option A → Action A
found none = raise not_found
found (some a) = pure a

pub record PlatformView : Type 0 where
  pub platform : Platform
  pub datasource_count : ℕ
  pub shown : DisplayStatus

unfoldable pub platform_dict : Platform → List DisplayStatus → PlatformView
unfolding compute_platform_status
platform_dict platform children = record {
  platform = platform;
  datasource_count = length children;
  shown = compute_platform_status platform children;
}

pub record DataSourceView : Type 0 where
  pub datasource : DataSource
  pub shown : DisplayStatus

abbrev some_int : Result ℤ → Result (Option ℤ)
some_int (ok n) = ok (some n)
some_int (err e) = err e

-- `int(value) if value else None`; Python's `int` of a text is given.
abbrev pub int_or_none : (Text → Option ℤ) → Json → Result (Option ℤ)
int_or_none to_int value = if truthy value then some_int (int_json to_int value) else ok none

unfoldable pub default_stale_threshold : (Text → Option ℤ) → Action (Option ℤ)
unfolding Settings.get truthy int_json ◌>>=◌
default_stale_threshold to_int = do
  value ← Settings.get default_stale_threshold_sec null
  lift (int_or_none to_int value)

-- The clock is read only where the age of a pass matters.
abbrev pub needs_clock : DataSource → Option ℤ → Bool
needs_clock ds default =
    ds.enabled
    && (raw_status_of ds == status_pass)
    && is_some (effective_threshold ds.stale_threshold_sec default)
    && is_some ds.last_result_time

unfoldable pub show_status : World → Option ℤ → DataSource → Action DisplayStatus
unfolding utcnow compute_datasource_display_status raw_status_of ◌>>=◌
show_status w default ds =
    if needs_clock ds default
    then (do now ← utcnow w; pure (compute_datasource_display_status ds now default))
    else pure (compute_datasource_display_status ds 0 default)

unfoldable pub datasource_dict : World → Option ℤ → DataSource → Action DataSourceView
unfolding show_status ◌>>=◌
datasource_dict w default ds = do
  shown ← show_status w default ds
  pure (record { datasource = ds; shown = shown })

-- A query that is not allowed is a ValueError.
unfoldable pub validate_query_or_raise : QueryValidator → Bool → String → Action (Unit {0})
unfolding validate
validate_query_or_raise v is_admin spl_query =
    if (validate v (codes spl_query) is_admin).allowed then pure tt else raise value_error
