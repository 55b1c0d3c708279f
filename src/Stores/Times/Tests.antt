-- ===== src/Stores/Times/Tests.antt =====
-- Times written and read, with a calendar of strokes.
use app_datasource_validator.Prelude.{
  ℕ, zero, suc, ◌≡◌, refl, false, Option, none, some, [], ◌∷◌, ◌++◌, eqb, if◌then◌else◌,
}
use app_datasource_validator.Text.{Text}
use app_datasource_validator.Text.Search.{ends_in}
use app_datasource_validator.Exec.{ok}
use app_datasource_validator.Stores.Times.{Datetime, utcnow_iso, parse_iso, parse_iso-utcnow_iso}

abbrev strokes : ℕ → Text
strokes zero = b'T' ∷ []
strokes (suc n) = b'|' ∷ strokes n

abbrev one_more : Option ℕ → Option ℕ
one_more none = none
one_more (some n) = some (suc n)

abbrev count_strokes : Text → Option ℕ
count_strokes [] = none
count_strokes (c ∷ t) = let more = one_more (count_strokes t) in if eqb c b'|' then more else some 0

counted : (n : ℕ) → count_strokes (strokes n) ≡ some n
counted zero = refl
counted (suc n) = rw (counted n) refl

unzoned : (n : ℕ) → ends_in b'Z' (strokes n) ≡ false
unzoned zero = refl
unzoned (suc zero) = refl
unzoned (suc (suc n)) = unzoned (suc n)

given : (n : ℕ) → ¬ (strokes n ≡ [])
given zero e = cc
given (suc n) e = cc

abbrev calendar : Datetime
calendar = record {
  strftime = λ ms us. strokes ms ++ us ∷ us ∷ us ∷ [];
  fromisoformat = count_strokes;
  to_millis = strokes;
  last_three = λ us. (us, us, us);
  strftime-parts = λ ms us. refl;
  reads_millis = counted;
  no_zone = unzoned;
  not_blank = given;
}

parse_iso-utcnow_iso_example :
    (parse_iso calendar (some (utcnow_iso calendar 2 7)) ≡ ok (some 2))
    × (parse_iso calendar (some (b'|' ∷ b'|' ∷ b'T' ∷ [])) ≡ ok (some 2))
    × (parse_iso calendar none ≡ ok none)
    × (parse_iso calendar (some []) ≡ ok none)
parse_iso-utcnow_iso_example = parse_iso-utcnow_iso calendar 2 7
