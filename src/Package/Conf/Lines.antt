-- ===== src/Package/Conf/Lines.antt =====
-- A .conf file line by line: each lemma runs the loop over one line, with any lines behind it.
use app_datasource_validator.Prelude.{
  suc, ◌≡◌, refl, ap, ◌∙◌, true, false, Option, some, List, [], ◌∷◌, ◌++◌, map, length, All, eqb,
  arith,
}
use app_datasource_validator.Text.{Text, is_space, lstrip_of, text_eq, mem_text, strip}
use app_datasource_validator.Text.Equality.{text_eq_refl}
use app_datasource_validator.Text.Search.{ends_in, has_char}
use app_datasource_validator.Text.Stripped.{
  EndsWell, strip-closed, strip-stripped, has_char-middle, before-middle, after-middle,
  ends_in-last, drop_last-last,
}
use app_datasource_validator.Package.Conf.{
  Settings, Stanza, Conf, names, keys, stanza, settings_of, put_setting, Reading, continued,
  on_header, on_pair, on_line, parse_lines, Loop, is_ignored, is_header,
}
use app_datasource_validator.Package.Conf.WellFormed.{Distinct}

abbrev pub header_line : Text → Text
header_line name = b'[' ∷ name ++ b']' ∷ []

abbrev pub pair_line : Text × Text → Text
pair_line (key, val) = key ++ b'=' ∷ val

abbrev pub stanza_lines : Stanza → List Text
stanza_lines s = header_line s.name ∷ map pair_line s.settings

abbrev pub conf_lines : Conf → List Text
conf_lines [] = []
conf_lines (s ∷ conf) = stanza_lines s ++ conf_lines conf

-- A key is not empty and has no `=`, no blank at its ends, and neither `#` nor `[` at its start.
abbrev pub IsKey : Text → Type 0
IsKey [] = ⊥
IsKey (c ∷ t) =
    (is_space c ≡ false)
    × (eqb b'#' c ≡ false)
    × (eqb b'[' c ≡ false)
    × EndsWell (c ∷ t)
    × (has_char b'=' (c ∷ t) ≡ false)

-- A value has no blank at its ends and no backslash at its end.
abbrev pub IsValue : Text → Type 0
IsValue t = (lstrip_of is_space t ≡ t) × EndsWell t × (ends_in b'\\' t ≡ false)

abbrev pub IsPair : Text × Text → Type 0
IsPair (key, val) = IsKey key × IsValue val

abbrev pub IsPrintable : Conf → Type 0
IsPrintable conf =
    Distinct (names conf)
    × All (λ s. Distinct (keys s.settings) × All (λ p. IsPair p) s.settings) conf

-- The loop with the fuel that its lines need.
abbrev pub run : List Text → Conf → Option Text → Reading
run lines = parse_lines (suc (length lines)) lines

module _ (go : Loop) (lines : List Text) (conf : Conf) (current : Option Text) where
  on_line-on_header :
      (name : Text)
      → on_line go (header_line name) lines conf current ≡ on_header go name lines conf
  unfolding on_line
  on_line-on_header name =
      let closes : ends_in b']' (header_line name) ≡ true = ends_in-last b']' b']' (b'[' ∷ name) in
      rw (closes, drop_last-last b']' name) refl

  on_line-on_pair :
      (key val : Text)
      → is_ignored (pair_line (key, val)) ≡ false
      → is_header (pair_line (key, val)) ≡ false
      → has_char b'=' key ≡ false
      → strip key ≡ key
      → strip val ≡ val
      → continued val lines ≡ (val, lines)
      → on_line go (pair_line (key, val)) lines conf current ≡ on_pair go key val lines conf current
  unfolding on_line
  on_line-on_pair key val i h no_eq k v whole =
      rw
        (
          i,
          h,
          has_char-middle b'=' key val,
          before-middle b'=' key val no_eq,
          after-middle b'=' key val no_eq,
          k,
          v,
          whole,
        )
        refl

header_line-strip : (name : Text) → strip (header_line name) ≡ header_line name
unfolding is_space
header_line-strip name = strip-closed b'[' name b']' [] refl refl refl

-- One round of the loop, on a line whose strip is known.
run-on_line :
    (line : Text) (lines : List Text) (conf : Conf) (current : Option Text)
    → strip line ≡ line
    → run (line ∷ lines) conf current
      ≡ on_line (parse_lines (suc (length lines))) line lines conf current
unfolding parse_lines
run-on_line line lines conf current e =
    ap (λ t. on_line (parse_lines (suc (length lines))) t lines conf current) e

pub run_header :
    (name : Text) (lines : List Text) (conf : Conf) (current : Option Text)
    → mem_text name (names conf) ≡ false
    → run (header_line name ∷ lines) conf current
      ≡ run lines (conf ++ record { name = name; settings = [] } ∷ []) (some name)
unfolding on_header
run_header name lines conf current new =
    run-on_line (header_line name) lines conf current (header_line-strip name)
    ∙ on_line-on_header (parse_lines (suc (length lines))) lines conf current name
    ∙ rw new refl

continued-whole :
    (val : Text) (lines : List Text)
    → ends_in b'\\' val ≡ false
    → continued val lines ≡ (val, lines)
unfolding continued
continued-whole val [] h = refl
continued-whole val (line ∷ lines) h = rw h refl

pair_line-strip :
    (key val : Text) → IsKey key → IsValue val → strip (pair_line (key, val)) ≡ pair_line (key, val)
unfolding is_space
pair_line-strip [] val k v = absurd k
pair_line-strip (c ∷ t) val k v = strip-closed c t b'=' val k.0 refl v.1

on_line-pair :
    (go : Loop) (key val : Text) (lines : List Text) (conf : Conf) (current : Option Text)
    → IsKey key
    → IsValue val
    → on_line go (pair_line (key, val)) lines conf current ≡ on_pair go key val lines conf current
on_line-pair go [] val lines conf current k v = absurd k
on_line-pair go (c ∷ t) val lines conf current (blank, hash, bracket, ends, no_eq) (l, r, whole) =
    on_line-on_pair go lines conf current (c ∷ t) val hash (rw bracket refl) no_eq
      (strip-stripped (c ∷ t) (rw blank refl) ends) (strip-stripped val l r)
      (continued-whole val lines whole)

new_pair-put_setting :
    (name key val : Text) (conf : Conf) (settings : Settings)
    → mem_text name (names conf) ≡ false
    → put_setting name key val (conf ++ record { name = name; settings = settings } ∷ [])
      ≡ conf ++ record { name = name; settings = settings ++ (key, val) ∷ [] } ∷ []
unfolding put_setting mem_text
new_pair-put_setting name key val [] settings absent = rw text_eq_refl refl
new_pair-put_setting name key val (s ∷ conf) settings absent =
    let other : text_eq name s.name ≡ false = ground arith in
    rw other (
      ap (λ (c : Conf). s ∷ c)
        (new_pair-put_setting name key val conf settings (rw other at absent)))

last-settings_of :
    (name : Text) (conf : Conf) (settings : Settings)
    → mem_text name (names conf) ≡ false
    → settings_of name (conf ++ record { name = name; settings = settings } ∷ []) ≡ settings
unfolding stanza mem_text
last-settings_of name [] settings absent = rw text_eq_refl refl
last-settings_of name (s ∷ conf) settings absent =
    let other : text_eq name s.name ≡ false = ground arith in
    rw other (last-settings_of name conf settings (rw other at absent))

pub run_pair :
    (key val : Text) (lines : List Text) (conf : Conf) (name : Text) (settings : Settings)
    → IsKey key
    → IsValue val
    → mem_text name (names conf) ≡ false
    → mem_text key (keys settings) ≡ false
    → run
        (pair_line (key, val) ∷ lines)
        (conf ++ record { name = name; settings = settings } ∷ [])
        (some name)
      ≡ run lines
          (conf ++ record { name = name; settings = settings ++ (key, val) ∷ [] } ∷ [])
          (some name)
unfolding on_pair
run_pair key val lines conf name settings k v absent new =
    let before : Conf = conf ++ record { name = name; settings = settings } ∷ [] in
    run-on_line (pair_line (key, val)) lines before (some name) (pair_line-strip key val k v)
    ∙ on_line-pair (parse_lines (suc (length lines))) key val lines before (some name) k v
    ∙ rw
        (
          last-settings_of name conf settings absent,
          new,
          new_pair-put_setting name key val conf settings absent,
        )
        refl
