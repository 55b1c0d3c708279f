-- ===== src/Rest/Config.antt =====
-- bin/rest_config.py: the setup page. The payload's fields are JSON values; None and null are one.
pub mod Unsaved
use app_datasource_validator.Prelude.{
  ℕ, ℤ, String, ◌==◌, ◌≡◌, refl, Bool, true, false, not, ◌||◌, Option, none, some, List, [], ◌∷◌,
  if◌then◌else◌, Bool-cases, inl, inr,
}
use app_datasource_validator.Text.{Text, codes}
use app_datasource_validator.Json.{Json, null, text, Fields, get_or, lookup, int_json}
use app_datasource_validator.Exec.{
  Error, Result, ok, err, value_error, rest_error, pure, raise, lift, ◌>>=◌, ◌>>◌,
}
use app_datasource_validator.SplunkClient.{
  Reply, replied, failed, crashed, login, set_app_configured, enable_modular_input,
}
use app_datasource_validator.Security.{validate_identifier}
use app_datasource_validator.Security.Credentials.{Credential, set_service_credential}
use app_datasource_validator.Stores.{World}
use app_datasource_validator.Stores.Settings
use app_datasource_validator.App.{App, Step, Platform, on_stores, on_passwords, service_credential}
use app_datasource_validator.Worker.{
  search_time_range_earliest, search_time_range_latest, default_dispatch_timeout_sec,
}

pub record ConfigView : Type 0 where
  pub configured : Bool
  pub service_username : Option String
  pub settings : List (String × Json)

abbrev config_view : Option Credential → List (String × Json) → ConfigView
config_view none settings = record {
  configured = false;
  service_username = none;
  settings = settings;
}
config_view (some c) settings = record {
  configured = true;
  service_username = some c.username;
  settings = settings;
}

unfoldable pub get_config : Step ConfigView
unfolding service_credential on_stores Settings.get_all ◌>>=◌
get_config = do
  credential ← service_credential
  settings ← on_stores Settings.get_all
  pure (config_view credential settings)

-- SETTINGS_FIELDS: `true` for `int`, `false` for `str`.
abbrev pub settings_fields : List (String × Bool)
settings_fields =
    ("default_stale_threshold_sec", true)
    ∷ (default_dispatch_timeout_sec, true)
    ∷ (search_time_range_earliest, false)
    ∷ (search_time_range_latest, false)
    ∷ []

-- Neither None nor the empty text.
abbrev pub is_given : Json → Bool
is_given null = false
is_given (text s) = not (s == "")
is_given other = true

abbrev reply_error : {A : Type 0} → Reply A → Step (Unit {0})
reply_error (replied a) = pure tt
reply_error (failed status) = raise rest_error
reply_error crashed = raise rest_error

-- Python's `str` of a number and of a JSON value are given.
module _ (w : World) (p : Platform) (str_int : ℤ → String) (str_json : Json → String)
    (entry_name : String → String → String) where
  abbrev printed : Bool → Json → Result String
  printed false value = ok (str_json value)
  printed true value = elim (int_json p.to_int value) [ ok n ↦ ok (str_int n) | err e ↦ err e ]

  unfoldable pub save_settings : List (String × Bool) → Fields → Option String → Step (Unit {0})
  unfolding get_or lookup int_json on_stores Settings.set_value lift ◌>>=◌
  save_settings [] payload user = pure tt
  save_settings ((name, is_int) ∷ rest) payload user =
      let later = save_settings rest payload user in
      let value = get_or name null payload in
      if is_given value
      then (do
        shown ← lift (printed is_int value)
        on_stores (Settings.set_value w name (text shown) user)
        later)
      else later

  -- After the login was accepted.
  unfoldable pub save : String → String → Fields → Option String → Step String
  unfolding on_passwords set_service_credential save_settings set_app_configured
      enable_modular_input ◌>>=◌
  save username password payload user = do
    on_passwords (set_service_credential entry_name username password)
    save_settings settings_fields payload user
    reply_error (set_app_configured p.server)
    reply_error (enable_modular_input p.server)
    pure username

  abbrev pub after_login : String → String → Fields → Option String → Reply Json → Step String
  after_login username password payload user (replied key) = save username password payload user
  after_login username password payload user (failed status) = raise value_error
  after_login username password payload user crashed = raise rest_error

  -- The two texts of the payload; an absent one stands as the empty text.
  unfoldable pub post_config : String → String → Fields → Option String → Step String
  unfolding validate_identifier login save raise lift ◌>>=◌
  post_config username password payload user =
      if (username == "") || (password == "") then raise value_error else do
        lift (validate_identifier (some (codes username)) 128 true)
        after_login username password payload user (login p.server username password)
