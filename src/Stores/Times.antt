-- ===== src/Stores/Times.antt =====
-- bin/app/models/base.py: `utcnow_iso` and `parse_iso`, over the texts of Python's datetime.
mod Tests
use app_datasource_validator.Prelude.{
  ℕ, ◌≡◌, refl, sym, ◌∙◌, append_assoc, Bool, true, false, Option, none, some, [], ◌∷◌, ◌++◌, eqb,
  inl, inr, Bool-cases, if◌then◌else◌,
}
use app_datasource_validator.Text.{Text}
use app_datasource_validator.Text.Search.{ends_in, drop_last}
use app_datasource_validator.Text.Stripped.{ends_in-last, drop_last-last}
use app_datasource_validator.Exec.{Result, ok, err, value_error}

-- What is used of datetime. A moment is a number of milliseconds and the microseconds beyond; `%f`
-- writes six digits, so the last three of `strftime` are those microseconds, and what stands before
-- them is a text of the milliseconds, which `fromisoformat` reads.
pub record Datetime : Type 0 where
  pub strftime : ℕ → ℕ → Text
  pub fromisoformat : Text → Option ℕ
  pub to_millis : ℕ → Text
  pub last_three : ℕ → ℕ × ℕ × ℕ
  pub strftime-parts :
      (ms us : ℕ)
      → strftime ms us
        ≡ to_millis ms ++ (last_three us).0 ∷ (last_three us).1 ∷ (last_three us).2 ∷ []
  pub reads_millis : (ms : ℕ) → fromisoformat (to_millis ms) ≡ some ms
  pub no_zone : (ms : ℕ) → ends_in b'Z' (to_millis ms) ≡ false
  pub not_blank : (ms : ℕ) → ¬ (to_millis ms ≡ [])

drop_three : (t : Text) (a b c : ℕ) → drop_last (drop_last (drop_last (t ++ a ∷ b ∷ c ∷ []))) ≡ t
drop_three t a b c =
    let split : ((t ++ a ∷ []) ++ b ∷ []) ++ c ∷ [] ≡ t ++ a ∷ b ∷ c ∷ [] =
      append_assoc (t ++ a ∷ []) (b ∷ []) (c ∷ []) ∙ append_assoc t (a ∷ []) (b ∷ c ∷ []) in
    rw
      (
        sym split,
        drop_last-last c ((t ++ a ∷ []) ++ b ∷ []),
        drop_last-last b (t ++ a ∷ []),
        drop_last-last a t,
      )
      refl

append-ne : (t : Text) (c : ℕ) → ¬ (t ++ c ∷ [] ≡ [])
append-ne [] c e = cc
append-ne (x ∷ t) c e = cc

module _ (d : Datetime) where
  -- `strftime(...)[:-3] + "Z"`
  unfoldable pub utcnow_iso : ℕ → ℕ → Text
  utcnow_iso ms us = drop_last (drop_last (drop_last (d.strftime ms us))) ++ b'Z' ∷ []

  abbrev from_iso : Option ℕ → Result (Option ℕ)
  from_iso none = err value_error
  from_iso (some ms) = ok (some ms)

  abbrev parse_text : Text → Result (Option ℕ)
  parse_text [] = ok none
  parse_text (c ∷ value) =
      from_iso
        (d.fromisoformat (if ends_in b'Z' (c ∷ value) then drop_last (c ∷ value) else c ∷ value))

  unfoldable pub parse_iso : Option Text → Result (Option ℕ)
  parse_iso none = ok none
  parse_iso (some value) = parse_text value

  parse_text-given :
      (value : Text) (ms : ℕ)
      → ¬ (value ≡ [])
      → d.fromisoformat (if ends_in b'Z' value then drop_last value else value) ≡ some ms
      → parse_text value ≡ ok (some ms)
  parse_text-given [] ms given h = absurd (given refl)
  parse_text-given (c ∷ value) ms given h = rw h refl

  utcnow_iso-millis : (ms us : ℕ) → utcnow_iso ms us ≡ d.to_millis ms ++ b'Z' ∷ []
  unfolding utcnow_iso
  utcnow_iso-millis ms us = rw (d.strftime-parts ms us, drop_three (d.to_millis ms) _ _ _) refl

  -- What utcnow_iso writes, parse_iso reads as the same millisecond, with its Z or without; no text and
  -- the empty text are no time; where datetime writes six digits of microseconds and reads what it
  -- writes without the last three.
  pub parse_iso-utcnow_iso :
      (ms us : ℕ)
      → (parse_iso (some (utcnow_iso ms us)) ≡ ok (some ms))
        × (parse_iso (some (d.to_millis ms)) ≡ ok (some ms))
        × (parse_iso none ≡ ok none)
        × (parse_iso (some []) ≡ ok none)
  unfolding parse_iso
  parse_iso-utcnow_iso ms us = (
    rw (utcnow_iso-millis ms us) (
        parse_text-given (d.to_millis ms ++ b'Z' ∷ []) ms (append-ne (d.to_millis ms) b'Z') (
          rw (ends_in-last b'Z' b'Z' (d.to_millis ms), drop_last-last b'Z' (d.to_millis ms))
            (d.reads_millis ms))),
    parse_text-given (d.to_millis ms) ms (d.not_blank ms) (rw (d.no_zone ms) (d.reads_millis ms)),
    refl,
    refl,
  )
