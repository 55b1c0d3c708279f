-- ===== src/App.antt =====
-- What the entry points share: the stores beside the service account's credential, and the sessions
-- that `login` of bin/app/splunk_client.py opens.
pub mod Samples
use app_datasource_validator.Prelude.{ℕ, ℤ, String, Option, none, some}
use app_datasource_validator.Text.{Text}
use app_datasource_validator.Json.{Json}
use app_datasource_validator.Query.{QueryValidator, default_validator}
use app_datasource_validator.Exec.{Error, Result, ok, err, Exec, rest_error}
use app_datasource_validator.SplunkClient.{Server, Reply, replied, failed, crashed}
use app_datasource_validator.SplunkClient.SearchParser.{parse}
use app_datasource_validator.Executor.{JobClient, SearchExecutor}
use app_datasource_validator.Security.Credentials.{Passwords, Credential, get_service_credential}
use app_datasource_validator.Stores.{Stores, Action}

pub record App : Type 0 where
  pub stores : Stores
  pub passwords : Passwords

abbrev pub Step : Type 0 → Type 0
Step A = Exec App A

abbrev pub in_stores : {A : Type 0} → Result A × Stores → App → Result A × App
in_stores (r, s') s = (r, record s { stores = s' })

unfoldable pub on_stores : {A : Type 0} → Action A → Step A
on_stores m s = in_stores (m s.stores) s

abbrev pub in_passwords : {A : Type 0} → Result A × Passwords → App → Result A × App
in_passwords (r, p') s = (r, record s { passwords = p' })

unfoldable pub on_passwords : {A : Type 0} → Exec Passwords A → Step A
on_passwords m s = in_passwords (m s.passwords) s

unfoldable pub service_credential : Step (Option Credential)
unfolding get_service_credential
service_credential s = (get_service_credential s.passwords, s)

-- What the program is given: the server as the caller's session and as the session of a key, the
-- job client over a server, `str.lower`, the string of a text, and `int` of a text.
pub record Platform : Type 0 where
  pub server : Server
  pub session : Json → Server
  pub jobs : Server → JobClient
  pub lower : Text → Text
  pub as_string : Text → String
  pub to_int : Text → Option ℤ

-- `SearchExecutor(QueryValidator(SplunkRestSearchParser(key)), SearchJobClient(key), ...)`
unfoldable pub executor_for : Platform → Json → Json → Json → ℤ → SearchExecutor
unfolding default_validator parse
executor_for p key earliest latest max_time = record {
  query_validator = default_validator p.lower (parse p.lower (p.session key) p.as_string);
  job_client = p.jobs (p.session key);
  earliest_time = earliest;
  latest_time = latest;
  max_time_sec = max_time;
}
