-- ===== src/Stores/Checks.antt =====
-- The checks of bin/app/security.py as the stores call them, on values that a caller sends.
use app_datasource_validator.Prelude.{ℕ, String, false, Option, none, some}
use app_datasource_validator.Text.{Text, codes}
use app_datasource_validator.Exec.{validation_error, Result, ok, err, pure, lift, ◌>>=◌, ◌>>◌}
use app_datasource_validator.Security.{validate_identifier, validate_display_text}
use app_datasource_validator.Stores.{Action}

abbrev pub text_of : Option String → Option Text
text_of none = none
text_of (some s) = some (codes s)

-- The checks return the value that they are given.
abbrev pub same_value : Option String → Result Text → Result String
same_value none checked = err validation_error
same_value (some s) (err e) = err e
same_value (some s) (ok t) = ok s

unfoldable pub checked_identifier : Option String → Action String
unfolding validate_identifier lift
checked_identifier value = lift (same_value value (validate_identifier (text_of value) 128 false))

unfoldable pub checked_text : Option String → ℕ → Action String
unfolding validate_display_text lift
checked_text value max_length =
    lift (same_value value (validate_display_text (text_of value) max_length))

-- A field that an update may leave out.
unfoldable pub checked_field : Option String → ℕ → Action (Unit {0})
unfolding checked_text ◌>>=◌
checked_field none max_length = pure tt
checked_field (some value) max_length = do checked_text (some value) max_length; pure tt

abbrev pub or_current {ℓ} : {A : Type ℓ} → Option A → A → A
or_current none current = current
or_current (some value) current = value
