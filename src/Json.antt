-- ===== src/Json.antt =====
-- The values that `json.loads` gives, as the program reads them. Numbers are whole, and an object has
-- each key once.
use app_datasource_validator.Prelude.{
  ℤ, pos, String, ◌==◌, Bool, true, false, not, ◌&&◌, Option, none, some, leb_ℤ, if◌then◌else◌,
  or_else,
}
use app_datasource_validator.Text.{Text, codes}
use app_datasource_validator.Exec.{Result, ok, err, value_error, rest_error}

mutual
  pub data Json : Type 0 where
    null : Json
    boolean : Bool → Json
    number : ℤ → Json
    text : String → Json
    array : Items → Json
    object : Fields → Json

  pub data Items : Type 0 where
    empty_array : Items
    item : Json → Items → Items

  pub data Fields : Type 0 where
    empty_object : Fields
    field : String → Json → Fields → Fields

-- `d.get(key)`, where None and null are told apart.
unfoldable pub lookup : String → Fields → Option Json
lookup key empty_object = none
lookup key (field k v rest) = if k == key then some v else lookup key rest

-- `d.get(key, default)`
unfoldable pub get_or : String → Json → Fields → Json
unfolding lookup
get_or key default fields = or_else (lookup key fields) default

-- `bool(value)`
unfoldable pub truthy : Json → Bool
truthy null = false
truthy (boolean b) = b
truthy (number n) = not (leb_ℤ n (pos 0) && leb_ℤ (pos 0) n)
truthy (text s) = not (s == "")
truthy (array empty_array) = false
truthy (array (item x xs)) = true
truthy (object empty_object) = false
truthy (object (field k v rest)) = true

-- `a or b`
abbrev pub or_json : Json → Json → Json
or_json a b = if truthy a then a else b

-- `int(value)`: ValueError for a text that is no number, and TypeError, an internal error here, for
-- what has no number. Python's `int` of a text is given.
abbrev int_text : Option ℤ → Result ℤ
int_text none = err value_error
int_text (some n) = ok n

unfoldable pub int_json : (Text → Option ℤ) → Json → Result ℤ
int_json to_int null = err rest_error
int_json to_int (boolean b) = ok (if b then pos 1 else pos 0)
int_json to_int (number n) = ok n
int_json to_int (text s) = int_text (to_int (codes s))
int_json to_int (array xs) = err rest_error
int_json to_int (object fs) = err rest_error
