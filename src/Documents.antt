-- ===== src/Documents.antt =====
-- The documents of the collections: `to_doc` and `from_doc` of bin/app/models. A timestamp is a text
-- in a document; the texts are those of Python's datetime, which is given.
pub mod DataSources
pub mod Platforms
pub mod Queue
pub mod Runs
pub mod Leases
pub mod Results
pub mod RoundTrips
mod Tests
use app_datasource_validator.Prelude.{
  ℕ, ℤ, pos, negsuc, String, ◌==◌, ◌≡◌, refl, Bool, true, false, Option, none, some, List, [], ◌∷◌,
  if◌then◌else◌,
}
use app_datasource_validator.Text.{Text, codes}
use app_datasource_validator.Json.{
  Json, null, boolean, number, text, array, object, Fields, empty_object, field, lookup, get_or,
  truthy, int_json,
}
use app_datasource_validator.Exec.{Result, ok, err}

-- What the models use of datetime and of `int`: texts of whole milliseconds are read back.
pub record Formats : Type 0 where
  pub iso : ℕ → String
  pub read_iso : String → Option ℕ
  pub read_iso-iso : (n : ℕ) → read_iso (iso n) ≡ some n
  pub iso_given : (n : ℕ) → (iso n == "") ≡ false
  pub to_int : Text → Option ℤ

-- Reading stops where a field has a type that the record has not.
infixl 10 ◌>>=◌
abbrev pub ◌>>=◌ {ℓ} : {A B : Type ℓ} → Option A → (A → Option B) → Option B
none >>= f = none
some a >>= f = f a

-- A document with the keys and values of a list, in order.
abbrev pub fields_of : List (String × Json) → Fields
fields_of [] = empty_object
fields_of ((k, v) ∷ rest) = field k v (fields_of rest)

abbrev pub as_text : Json → Option String
as_text (text s) = some s
as_text other = none

abbrev pub as_optional_text : Json → Option (Option String)
as_optional_text null = some none
as_optional_text (text s) = some (some s)
as_optional_text other = none

abbrev pub optional_text : Option String → Json
optional_text none = null
optional_text (some s) = text s

abbrev pub as_optional_number : Json → Option (Option ℤ)
as_optional_number null = some none
as_optional_number (number n) = some (some n)
as_optional_number other = none

abbrev pub optional_number : Option ℤ → Json
optional_number none = null
optional_number (some n) = number n

abbrev pub as_count : Option ℤ → Option ℕ
as_count none = none
as_count (some (pos n)) = some n
as_count (some (negsuc n)) = none

module _ (f : Formats) where
  abbrev pub int_of : Json → Option ℤ
  int_of value = elim (int_json f.to_int value) [ ok n ↦ some n | err _ ↦ none ]

  abbrev pub time_text : ℕ → Json
  time_text n = text (f.iso n)

  abbrev pub optional_time : Option ℕ → Json
  optional_time none = null
  optional_time (some n) = text (f.iso n)

  abbrev pub as_time : Json → Option ℕ
  as_time (text s) = f.read_iso s
  as_time other = none

  -- `parse_iso`: an empty text is no time.
  abbrev pub as_optional_time : Json → Option (Option ℕ)
  as_optional_time null = some none
  as_optional_time (text s) = if s == "" then some none else f.read_iso s >>= λ n. some (some n)
  as_optional_time other = none

  pub as_optional_time-written : (t : Option ℕ) → as_optional_time (optional_time t) ≡ some t
  as_optional_time-written none = refl
  as_optional_time-written (some n) = rw (f.iso_given n, f.read_iso-iso n) refl

pub as_optional_text-written : (t : Option String) → as_optional_text (optional_text t) ≡ some t
as_optional_text-written none = refl
as_optional_text-written (some s) = refl

pub as_optional_number-written : (t : Option ℤ) → as_optional_number (optional_number t) ≡ some t
as_optional_number-written none = refl
as_optional_number-written (some n) = refl
