-- ===== src/Security/Tests.antt =====
-- The checks and the credential at concrete inputs.
use app_datasource_validator.Prelude.{
  ℕ, String, ◌≡◌, refl, ◌≤◌, false, some, none, [], ◌∷◌, ◌++◌, length,
}
use app_datasource_validator.Text.{Text, codes, ascii_lower}
use app_datasource_validator.Exec.{ok, err, validation_error}
use app_datasource_validator.Security.{
  validate_identifier, validate_display_text, redact, redacted, kept,
}
use app_datasource_validator.Security.Identifiers.{
  IsIdentifier, body_bound, IsIdentifier-accepted_iff,
}
use app_datasource_validator.Security.Credentials.{
  Entry, Passwords, get_service_credential, set_service_credential, delete_service_credential,
  delete-get, set-get,
}

security_program : Unit {0}
unfolding validate_identifier validate_display_text redact get_service_credential
    set_service_credential delete_service_credential ascii_lower
security_program = tt

-- A text with a newline at its end.
abbrev line : Text
line = codes "syslog" ++ 10 ∷ []

spaces_refused : validate_identifier (some (codes "a b")) 128 false ≡ err validation_error
unfolding security_program
spaces_refused = refl

tabs_allowed : validate_display_text (some (9 ∷ [])) 200 ≡ ok (9 ∷ [])
unfolding security_program
tabs_allowed = refl

password_hidden :
    redact {V = ℕ} ascii_lower ((codes "Password", 1) ∷ (codes "user", 2) ∷ [])
    ≡ (codes "Password", redacted) ∷ (codes "user", kept 2) ∷ []
unfolding security_program
password_hidden = refl

abbrev old : Entry
old = record {
  name = "datasource_validator:svc:";
  username = "svc";
  clear_password = "old";
  realm = some "datasource_validator";
}

abbrev entries : Passwords
entries = old ∷ record old { name = "other:svc:"; realm = some "other" } ∷ old ∷ []

abbrev name_entry : String → String → String
name_entry realm username = "datasource_validator:svc:"

IsIdentifier-accepted_iff_example : IsIdentifier false (body_bound false) line × (length line ≤ 128)
unfolding security_program
IsIdentifier-accepted_iff_example = (IsIdentifier-accepted_iff false 128 line).0 refl

deleted_reads_none : get_service_credential (delete_service_credential entries).1 ≡ ok none
deleted_reads_none = delete-get entries

set-get_example :
    ((set_service_credential name_entry "svc" "new" entries).0 ≡ ok tt)
    × (get_service_credential (set_service_credential name_entry "svc" "new" entries).1
        ≡ ok (some (record { username = "svc"; clear_password = "new" })))
unfolding security_program
set-get_example = (set-get name_entry "svc" "new" entries).0 (codes "svc") refl refl
