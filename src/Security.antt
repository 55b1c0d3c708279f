-- ===== src/Security.antt =====
-- bin/app/security.py: the checks on names and texts, capabilities, the service credential, redaction.

pub mod Identifiers
pub mod Credentials
mod Tests
use app_datasource_validator.Prelude.{
  ℕ, zero, suc, String, ◌==◌, Bool, true, false, not, ◌&&◌, ◌||◌, Option, none, some, List, [], ◌∷◌,
  ltb, leb, eqb, any, is_nil, length, keep, map, if◌then◌else◌,
}
use app_datasource_validator.Text.{Text, codes, mem_text}
use app_datasource_validator.Exec.{
  validation_error, capability_error, credential_error, Result, ok, err,
}

-- `[\x00-\x08\x0b\x0c\x0e-\x1f]`
unfoldable pub is_control : ℕ → Bool
is_control c = leb c 8 || eqb c 11 || eqb c 12 || leb 14 c && leb c 31

-- `[A-Za-z0-9]`
unfoldable pub is_alnum : ℕ → Bool
is_alnum c = leb 48 c && leb c 57 || leb 65 c && leb c 90 || leb 97 c && leb c 122

-- `[A-Za-z0-9_\-]`, and with `.` and `@` for usernames.
unfoldable pub is_body : Bool → ℕ → Bool
unfolding is_alnum
is_body allow_at c =
    is_alnum c || eqb c b'_' || eqb c b'-' || allow_at && (eqb c b'.' || eqb c b'@')

-- `$` matches at the end, and before a newline that ends the text.
unfoldable pub at_end : Text → Bool
at_end [] = true
at_end (c ∷ t) = eqb c 10 && is_nil t

-- At most `n` characters of the body, then `$`.
unfoldable pub matches_body : (ℕ → Bool) → ℕ → Text → Bool
unfolding at_end
matches_body p n [] = true
matches_body p zero (c ∷ t) = at_end (c ∷ t)
matches_body p (suc n) (c ∷ t) =
    let rest = matches_body p n t in if p c then rest else at_end (c ∷ t)

unfoldable pub matches_identifier : Bool → Text → Bool
unfolding matches_body is_body is_alnum
matches_identifier allow_at [] = false
matches_identifier allow_at (c ∷ t) =
    is_alnum c && matches_body (is_body allow_at) (if allow_at then 253 else 127) t

-- A value that is no text stands as None.
unfoldable pub validate_identifier : Option Text → ℕ → Bool → Result Text
unfolding matches_identifier is_control
validate_identifier none max_length allow_at = err validation_error
validate_identifier (some []) max_length allow_at = err validation_error
validate_identifier (some (c ∷ t)) max_length allow_at =
    if ltb max_length (length (c ∷ t))
    then err validation_error
    else if any is_control (c ∷ t)
    then err validation_error
    else if not (matches_identifier allow_at (c ∷ t))
    then err validation_error
    else ok (c ∷ t)

unfoldable pub validate_display_text : Option Text → ℕ → Result Text
unfolding is_control
validate_display_text none max_length = err validation_error
validate_display_text (some value) max_length =
    if ltb max_length (length value)
    then err validation_error
    else if any is_control value
    then err validation_error
    else ok value

-- The names of a session's capabilities; a session without them has none.
unfoldable pub has_capability : Option (List String) → String → Bool
has_capability none capability = false
has_capability (some names) capability = any (λ n. n == capability) names

unfoldable pub require_capability : Option (List String) → String → Result (Unit {0})
unfolding has_capability
require_capability session capability =
    if not (has_capability session capability) then err capability_error else ok tt

abbrev pub secret_field_names : List Text
secret_field_names =
    codes "password" ∷ codes "secret" ∷ codes "token" ∷ codes "credential" ∷ codes "authtoken" ∷ []

-- What a field of a redacted dictionary holds.
pub data Field (V : Type 0) : Type 0 where
  redacted : Field V
  kept : V → Field V

unfoldable pub redact : {V : Type 0} → (Text → Text) → List (Text × V) → List (Text × Field V)
unfolding mem_text
redact lower [] = []
redact lower ((k, v) ∷ fields) =
    (k, if mem_text (lower k) secret_field_names then redacted else kept v) ∷ redact lower fields
