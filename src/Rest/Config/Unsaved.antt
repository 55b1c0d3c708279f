-- ===== src/Rest/Config/Unsaved.antt =====
-- bin/rest_config.py: setting up an account that the server does not accept.
use app_datasource_validator.Prelude.{
  ℕ, ℤ, String, ◌==◌, eq_iff, ◌≡◌, refl, ◌≢◌, ◌≤◌, ◌⊎◌, inl, inr, Bool, true, false, not, ◌||◌,
  Option, some, [], ◌∷◌, length, ltb, any, arith, if◌then◌else◌, Bool-cases,
}
use app_datasource_validator.Text.{Text, codes}
use app_datasource_validator.Json.{Json, Fields}
use app_datasource_validator.Exec.{
  Result, ok, err, validation_error, value_error, rest_error, raise, lift, ◌>>=◌,
}
use app_datasource_validator.SplunkClient.{Reply, replied, failed, crashed, login}
use app_datasource_validator.Security.{validate_identifier, matches_identifier, is_control}
use app_datasource_validator.Security.Identifiers.{IsIdentifier, IsIdentifier-accepted_iff}
use app_datasource_validator.Stores.{World}
use app_datasource_validator.App.{App, Platform}
use app_datasource_validator.Rest.Config.{post_config, after_login}

-- At most 128 characters that make a username.
abbrev pub IsUsername : String → Type 0
IsUsername username = IsIdentifier true 253 (codes username) × (length (codes username) ≤ 128)

module _ (v : Text) where
  abbrev Checked : Result Text → Type 0
  Checked r = (r ≡ ok v) ⊎ (r ≡ err validation_error)

  Checked-unless :
      (bad : Bool) (r : Result Text) → Checked r → Checked (if bad then err validation_error else r)
  Checked-unless true r h = inr refl
  Checked-unless false r h = h

validate_identifier-Checked :
    (v : Text) (n : ℕ) (allow_at : Bool) → Checked v (validate_identifier (some v) n allow_at)
unfolding validate_identifier
validate_identifier-Checked [] n allow_at = inr refl
validate_identifier-Checked (c ∷ t) n allow_at = Checked-unless (c ∷ t) (ltb n (length (c ∷ t))) _ (
    Checked-unless (c ∷ t) (any is_control (c ∷ t)) _
      (Checked-unless (c ∷ t) (not (matches_identifier allow_at (c ∷ t))) _ (inl refl)))

module _ (w : World) (p : Platform) (str_int : ℤ → String) (str_json : Json → String)
    (entry_name : String → String → String) (username password : String) (payload : Fields)
    (user : Option String) (s : App) where
  abbrev post : Result String × App
  post = post_config w p str_int str_json entry_name username password payload user s

  abbrev attempt : Reply Json
  attempt = login p.server username password

  -- An answer that saved nothing, and which exception it is.
  pub record IsUnsaved (o : Result String × App) : Type 0 where
    pub unsaved : o.1 ≡ s
    pub missing : (username ≡ "") ⊎ (password ≡ "") → o.0 ≡ err value_error
    pub invalid : username ≢ "" → password ≢ "" → ¬ IsUsername username → o.0 ≡ err validation_error
    pub not_accepted :
        username ≢ ""
        → password ≢ ""
        → IsUsername username
        → (status : Option ℕ) → attempt ≡ failed status
        → o.0 ≡ err value_error
    pub not_reached :
        username ≢ ""
        → password ≢ ""
        → IsUsername username
        → attempt ≡ crashed
        → o.0 ≡ err rest_error

  abbrev is_blank : Bool
  is_blank = (username == "") || (password == "")

  blank-IsUnsaved : is_blank ≡ true → IsUnsaved (err value_error, s)
  blank-IsUnsaved blank = record {
    unsaved = refl;
    missing = λ _. refl;
    invalid = λ u k. absurd (ground (arith, blank, u, k, eq_iff username "", eq_iff password ""));
    not_accepted =
        λ u k. absurd (ground (arith, blank, u, k, eq_iff username "", eq_iff password ""));
    not_reached =
        λ u k. absurd (ground (arith, blank, u, k, eq_iff username "", eq_iff password ""));
  }

  module _ (given : is_blank ≡ false) where
    not_missing : (username ≡ "") ⊎ (password ≡ "") → ⊥
    not_missing (inl e) = ground (arith, given, e, eq_iff username "")
    not_missing (inr e) = ground (arith, given, e, eq_iff password "")

    invalid-IsUnsaved : ¬ IsUsername username → IsUnsaved (err validation_error, s)
    invalid-IsUnsaved bad = record {
      unsaved = refl;
      missing = λ m. absurd (not_missing m);
      invalid = λ _ _ _. refl;
      not_accepted = λ _ _ good. absurd (bad good);
      not_reached = λ _ _ good. absurd (bad good);
    }

    valid-IsUnsaved :
        IsUsername username
        → ((key : Json) → attempt ≢ replied key)
        → (r : Reply Json) → attempt ≡ r
        → IsUnsaved (after_login w p str_int str_json entry_name username password payload user r s)
    unfolding raise
    valid-IsUnsaved good never (replied key) e = absurd (never key e)
    valid-IsUnsaved good never (failed status) e = record {
      unsaved = refl;
      missing = λ m. absurd (not_missing m);
      invalid = λ _ _ bad. absurd (bad good);
      not_accepted = λ _ _ _ _ _. refl;
      not_reached = λ _ _ _ k. cc;
    }
    valid-IsUnsaved good never crashed e = record {
      unsaved = refl;
      missing = λ m. absurd (not_missing m);
      invalid = λ _ _ bad. absurd (bad good);
      not_accepted = λ _ _ _ status k. cc;
      not_reached = λ _ _ _ _. refl;
    }

  apart : ◌≡◌ {A = Result Text} (err validation_error) (ok (codes username)) → ⊥
  apart e = cc

  -- Credentials that the server did not accept are never saved. If the login gives no session key,
  -- the whole state is as before, credentials and settings included, and the answer is an error:
  -- ValueError if the username or the password is empty; ValidationError if neither is and the
  -- username is not one of at most 128 characters; otherwise ValueError if the server refused the
  -- login, and an internal error if the login raised anything else.
  pub failed_login-IsUnsaved : ((key : Json) → attempt ≢ replied key) → IsUnsaved post
  unfolding post_config lift raise ◌>>=◌
  failed_login-IsUnsaved never = elim (Bool-cases is_blank) [
    | inl blank ↦ rw blank (blank-IsUnsaved blank)
    | inr given ↦ elim (validate_identifier-Checked (codes username) 128 true) [
      | inl accepted ↦
          rw (given, accepted)
            (valid-IsUnsaved given
              ((IsIdentifier-accepted_iff true 128 (codes username)).0 accepted) never attempt refl)
      | inr rejected ↦
          rw (given, rejected)
            (invalid-IsUnsaved given (λ good.
              apart
                (rw rejected at ((IsIdentifier-accepted_iff true 128 (codes username)).1 good))))
    ]
  ]
