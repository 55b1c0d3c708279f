-- ===== src/Security/Credentials.antt =====
-- bin/app/security.py: the service account's credential, over storage/passwords as the in-memory
-- one of tests/unit/fakes.py: an entry is named by its realm and username.
use app_datasource_validator.Prelude.{
  String, ◌==◌, eq_refl, ◌≡◌, refl, Bool, true, false, not, ◌&&◌, Option, none, some, List, [], ◌∷◌,
  ◌++◌, keep, any, arith, inl, inr, Bool-cases, if◌then◌else◌, keep-append, All,
}
use app_datasource_validator.Text.{Text, codes}
use app_datasource_validator.Exec.{Error, validation_error, credential_error, Result, ok, err, Exec}
use app_datasource_validator.Security.{validate_identifier}

abbrev pub realm_name : String
realm_name = "datasource_validator"

pub record Entry : Type 0 where
  pub name : String
  pub username : String
  pub clear_password : String
  pub realm : Option String

abbrev pub Passwords : Type 0
Passwords = List Entry

pub record Credential : Type 0 where
  pub username : String
  pub clear_password : String

abbrev pub in_realm : Entry → Bool
in_realm e = elim e.realm [ none ↦ false | some r ↦ r == realm_name ]

-- More than one entry of the realm is a CredentialError.
abbrev single : List Entry → Result (Option Credential)
single [] = ok none
single (e ∷ []) = ok (some (record { username = e.username; clear_password = e.clear_password }))
single (e ∷ f ∷ es) = err credential_error

unfoldable pub get_service_credential : Passwords → Result (Option Credential)
get_service_credential passwords = single (keep in_realm passwords)

-- `passwords.delete(name)` takes away every entry of that name.
abbrev pub delete_named : String → Passwords → Passwords
delete_named name = keep (λ e. not (e.name == name))

-- `for existing in list(passwords)`: the loop runs over a copy.
unfoldable pub delete_all : List Entry → Passwords → Passwords
delete_all [] passwords = passwords
delete_all (e ∷ es) passwords =
    delete_all es (if in_realm e then delete_named e.name passwords else passwords)

-- The name of an entry comes from storage/passwords.
module _ (entry_name : String → String → String) where
  abbrev pub new_entry : String → String → Entry
  new_entry username password = record {
    name = entry_name realm_name username;
    username = username;
    clear_password = password;
    realm = some realm_name;
  }

  abbrev store_checked : Result Text → String → String → Passwords → Result (Unit {0}) × Passwords
  store_checked (err e) username password passwords = (err e, passwords)
  store_checked (ok _) username password passwords =
      if password == ""
      then (err validation_error, passwords)
      else (ok tt, delete_all passwords passwords ++ new_entry username password ∷ [])

  unfoldable pub set_service_credential : String → String → Exec Passwords (Unit {0})
  unfolding validate_identifier delete_all
  set_service_credential username password passwords =
      store_checked (validate_identifier (some (codes username)) 254 true) username password
        passwords

unfoldable pub delete_service_credential : Exec Passwords Bool
unfolding delete_all
delete_service_credential passwords = (ok (any in_realm passwords), delete_all passwords passwords)

-- If `p` is of the realm, then the loop over `es` deletes its name.
abbrev Covered : List Entry → Entry → Type 0
Covered es p = in_realm p ≡ true → any (λ e. in_realm e && (p.name == e.name)) es ≡ true

none-of_uncovered : (ps : Passwords) → All (Covered []) ps → keep in_realm ps ≡ []
none-of_uncovered [] h = refl
none-of_uncovered (p ∷ ps) h = elim (Bool-cases (in_realm p)) [
  | inl inside ↦ absurd (impossible (h.0 inside))
  | inr outside ↦ rw outside (none-of_uncovered ps h.1)
]
  where
    impossible : false ≡ true → ⊥
    impossible e = cc

still-Covered :
    (e : Entry) (es : List Entry) (ps : Passwords)
    → in_realm e ≡ true
    → All (Covered (e ∷ es)) ps
    → All (Covered es) (delete_named e.name ps)
still-Covered e es [] inside h = tt
still-Covered e es (p ∷ ps) inside h = elim (Bool-cases (p.name == e.name)) [
  | inl same ↦ rw same (still-Covered e es ps inside h.1)
  | inr other ↦
      rw other ((λ k. ground (arith, other, inside, h.0 k)), still-Covered e es ps inside h.1)
]

skipped :
    (e : Entry) (es : List Entry) (ps : Passwords)
    → in_realm e ≡ false
    → All (Covered (e ∷ es)) ps
    → All (Covered es) ps
skipped e es [] outside h = tt
skipped e es (p ∷ ps) outside h =
    ((λ k. ground (arith, outside, h.0 k)), skipped e es ps outside h.1)

none_left : (es ps : List Entry) → All (Covered es) ps → keep in_realm (delete_all es ps) ≡ []
unfolding delete_all
none_left [] ps h = none-of_uncovered ps h
none_left (e ∷ es) ps h = elim (Bool-cases (in_realm e)) [
  | inl inside ↦ rw inside (none_left es (delete_named e.name ps) (still-Covered e es ps inside h))
  | inr outside ↦ rw outside (none_left es ps (skipped e es ps outside h))
]

Covered-more :
    (e : Entry) (es : List Entry) (ps : Passwords) → All (Covered es) ps → All (Covered (e ∷ es)) ps
Covered-more e es [] h = tt
Covered-more e es (p ∷ ps) h = ((λ k. ground (arith, h.0 k)), Covered-more e es ps h.1)

All-Covered : (ps : Passwords) → All (Covered ps) ps
All-Covered [] = tt
All-Covered (p ∷ ps) =
    ((λ k. ground (arith, k, eq_refl p.name)), Covered-more p ps ps (All-Covered ps))

-- After the credential is deleted there is none, whatever entries there were before.
pub delete-get :
    (ps : Passwords) → get_service_credential (delete_service_credential ps).1 ≡ ok none
unfolding delete_service_credential get_service_credential
delete-get ps = rw (none_left ps ps (All-Covered ps)) refl

-- A credential with an accepted username and a password that is not empty is stored, and it is then
-- the only one of the realm, whatever entries there were before: reading it returns the username
-- and the password. If the username or the password is refused, nothing is deleted.
pub set-get :
    (entry_name : String → String → String) (username password : String) (ps : Passwords)
    → ((t : Text)
        → validate_identifier (some (codes username)) 254 true ≡ ok t
        → (password == "") ≡ false
        → ((set_service_credential entry_name username password ps).0 ≡ ok tt)
          × (get_service_credential (set_service_credential entry_name username password ps).1
              ≡ ok (some (record { username = username; clear_password = password }))))
      × ((e : Error)
          → (set_service_credential entry_name username password ps).0 ≡ err e
          → (set_service_credential entry_name username password ps).1 ≡ ps)
unfolding set_service_credential get_service_credential
set-get entry_name username password ps = (
  λ t h k. rw h (
      rw k (
        refl,
        rw (keep-append in_realm (delete_all ps ps) (new_entry entry_name username password ∷ []))
            (rw (none_left ps ps (All-Covered ps)) refl),
      )),
  λ e. refused (validate_identifier (some (codes username)) 254 true) e,
)
  where
    refused :
        (r : Result Text) (e : Error)
        → (store_checked entry_name r username password ps).0 ≡ err e
        → (store_checked entry_name r username password ps).1 ≡ ps
    refused (err d) e h = refl
    refused (ok t) e h = elim (Bool-cases (password == "")) [
      | inl blank ↦ rw blank refl
      | inr given ↦ absurd (stored (rw given at h))
    ]
      where
        stored : ◌≡◌ {A = Result (Unit {0})} (ok tt) (err e) → ⊥
        stored k = cc
