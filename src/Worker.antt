-- ===== src/Worker.antt =====
-- bin/dsv_validation_worker.py: one invocation of the modular input. The parsing of
-- the input's XML is given, and the host name and logging are left out.
pub mod SingleFlight
mod Tests
use app_datasource_validator.Prelude.{
  ℕ, ℤ, pos, String, ◌==◌, Bool, true, false, List, [], ◌∷◌, is_nil, Option, none, some,
  if◌then◌else◌,
}
use app_datasource_validator.Text.{Text, strip}
use app_datasource_validator.Json.{Json, text, number, int_json}
use app_datasource_validator.Exec.{
  Error, Result, ok, err, rest_error, pure, raise, lift, ◌>>=◌, ◌>>◌,
}
use app_datasource_validator.SplunkClient.{Server, Reply, replied, failed, crashed, login}
use app_datasource_validator.Security.Credentials.{Credential}
use app_datasource_validator.Stores.{World}
use app_datasource_validator.Stores.Settings
use app_datasource_validator.Executor.{default_stuck_job_timeout_sec}
use app_datasource_validator.Controller.Tick.{run_tick}
use app_datasource_validator.App.{App, Step, Platform, on_stores, service_credential, executor_for}

abbrev pub lease_ttl_sec : ℕ
lease_ttl_sec = 30

abbrev pub default_earliest_time : Json
default_earliest_time = text "-24h@h"

abbrev pub default_latest_time : Json
default_latest_time = text "now"

abbrev pub default_max_time_sec : ℤ
default_max_time_sec = pos 120

abbrev pub search_time_range_earliest : String
search_time_range_earliest = "search_time_range_earliest"

abbrev pub search_time_range_latest : String
search_time_range_latest = "search_time_range_latest"

abbrev pub default_dispatch_timeout_sec : String
default_dispatch_timeout_sec = "default_dispatch_timeout_sec"

-- The introspection call.
abbrev pub is_scheme : List String → Bool
is_scheme [] = false
is_scheme (program ∷ []) = false
is_scheme (program ∷ argument ∷ rest) = argument == "--scheme"

abbrev given_key : Option Text → Result Text
given_key none = err rest_error
given_key (some t) = if is_nil (strip t) then err rest_error else ok (strip t)

-- The text of the element `session_key`, if there is any, is what xml.etree makes of the input; it
-- is given.
unfoldable pub read_session_key : (Text → Result (Option Text)) → Text → Result Text
unfolding strip
read_session_key element stdin_text = elim (element stdin_text) [
  | ok t ↦ given_key t
  | err e ↦ err e
]

module _ (w : World) (p : Platform) (host : String) where
  -- The settings are read, and the worker ticks; the administrator flag has its default.
  unfoldable pub tick_as : Json → Step (Unit {0})
  unfolding on_stores Settings.get int_json executor_for run_tick lift ◌>>=◌
  tick_as key = do
    earliest ← on_stores (Settings.get search_time_range_earliest default_earliest_time)
    latest ← on_stores (Settings.get search_time_range_latest default_latest_time)
    limit ← on_stores (Settings.get default_dispatch_timeout_sec (number default_max_time_sec))
    max_time ← lift (int_json p.to_int limit)
    on_stores (
        run_tick w (executor_for p key earliest latest max_time) default_stuck_job_timeout_sec host
          lease_ttl_sec false)

  -- A refused login is logged, and nothing is done; any other exception ends the invocation.
  abbrev pub signed_in : Reply Json → Step (Unit {0})
  signed_in (replied key) = tick_as key
  signed_in (failed status) = pure tt
  signed_in crashed = raise rest_error

  abbrev pub with_credential : Option Credential → Step (Unit {0})
  with_credential none = pure tt
  with_credential (some c) = signed_in (login p.server c.username c.clear_password)

  unfoldable pub run_once : Step (Unit {0})
  unfolding service_credential tick_as login ◌>>=◌
  run_once = do credential ← service_credential; with_credential credential

  abbrev pub exit_code : Result (Unit {0}) × App → ℕ × App
  exit_code (ok _, s) = (0, s)
  exit_code (err _, s) = (1, s)

  abbrev pub with_key : Result Text → App → ℕ × App
  with_key (err e) s = (1, s)
  with_key (ok key) s = exit_code (run_once s)

  -- `main`: the exit code, and the state. The stores are the ones that the session key opens.
  unfoldable pub main : (Text → Result (Option Text)) → List String → Text → App → ℕ × App
  unfolding run_once read_session_key
  main element argv stdin s =
      if is_scheme argv then (0, s) else with_key (read_session_key element stdin) s
