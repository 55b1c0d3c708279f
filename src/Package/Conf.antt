-- ===== src/Package/Conf.antt =====
-- tools/validate_phase1.py: `parse_conf`, the parser of .conf files. The order of the stanzas is the
-- order of the list, which is also that of Python's dict.
pub mod WellFormed
pub mod Lines
pub mod RoundTrip
use app_datasource_validator.Prelude.{
  ℕ, zero, suc, Bool, true, false, ◌&&◌, ◌||◌, not, Option, none, some, List, [], ◌∷◌, ◌++◌, map,
  length, is_nil, if◌then◌else◌, or_else, is_some,
}
use app_datasource_validator.Text.{Text, text_eq, mem_text, strip}
use app_datasource_validator.Text.Search.{
  starts_in, ends_in, has_char, drop_first, drop_last, before, after,
}

abbrev pub Settings : Type 0
Settings = List (Text × Text)

pub record Stanza : Type 0 where
  pub name : Text
  pub settings : Settings

abbrev pub Conf : Type 0
Conf = List Stanza

abbrev pub names : Conf → List Text
names = map (λ s. s.name)

abbrev pub keys : Settings → List Text
keys = map (λ p. p.0)

-- `stanza.get(key)`
unfoldable pub setting : Text → Settings → Option Text
unfolding text_eq
setting key [] = none
setting key ((k, v) ∷ rest) = if text_eq key k then some v else setting key rest

-- `stanzas.get(name)`
unfoldable pub stanza : Text → Conf → Option Settings
unfolding text_eq
stanza name [] = none
stanza name (s ∷ rest) = if text_eq name s.name then some s.settings else stanza name rest

-- `stanzas.get(name, {})`
abbrev pub settings_of : Text → Conf → Settings
settings_of name conf = or_else (stanza name conf) []

-- `stanzas[name][key] = val`, where the key is new
unfoldable pub put_setting : Text → Text → Text → Conf → Conf
unfolding text_eq
put_setting name key val [] = []
put_setting name key val (s ∷ rest) =
    (if text_eq name s.name then record s { settings = s.settings ++ (key, val) ∷ [] } else s)
    ∷ put_setting name key val rest

-- What is read, or why nothing is: the cases of ConfParseError. Running out of fuel never happens.
pub data Reading : Type 0 where
  read : Conf → Reading
  duplicate_stanza : Text → Reading
  neither_header_nor_pair : Text → Reading
  before_any_stanza : Text → Reading
  duplicate_key : Text → Text → Reading
  out_of_fuel : Reading

-- A trailing backslash joins the next line onto the value; the lines that are left come with it.
unfoldable pub continued : Text → List Text → Text × List Text
unfolding strip
continued val [] = (val, [])
continued val (line ∷ lines) =
    let more = continued (drop_last val ++ strip line) lines in
    if ends_in b'\\' val then more else (val, line ∷ lines)

abbrev pub is_ignored : Text → Bool
is_ignored stripped = is_nil stripped || starts_in b'#' stripped

abbrev pub is_header : Text → Bool
is_header stripped = starts_in b'[' stripped && ends_in b']' stripped

-- The rest of the loop, from the lines that are left, the stanzas so far and the current stanza.
abbrev pub Loop : Type 0
Loop = List Text → Conf → Option Text → Reading

unfoldable pub on_header : Loop → Text → List Text → Conf → Reading
unfolding mem_text
on_header go name lines conf =
    if mem_text name (names conf)
    then duplicate_stanza name
    else go lines (conf ++ record { name = name; settings = [] } ∷ []) (some name)

unfoldable pub on_pair : Loop → Text → Text → List Text → Conf → Option Text → Reading
unfolding mem_text put_setting stanza
on_pair go key val lines conf none = before_any_stanza key
on_pair go key val lines conf (some current) =
    if mem_text key (keys (settings_of current conf))
    then duplicate_key key current
    else go lines (put_setting current key val conf) (some current)

unfoldable pub on_line : Loop → Text → List Text → Conf → Option Text → Reading
unfolding strip continued on_header on_pair
on_line go stripped lines conf current =
    if is_ignored stripped
    then go lines conf current
    else if is_header stripped
    then on_header go (drop_last (drop_first stripped)) lines conf
    else if not (has_char b'=' stripped)
    then neither_header_nor_pair stripped
    else (let (val, left) = continued (strip (after b'=' stripped)) lines in
        on_pair go (strip (before b'=' stripped)) val left conf current)

unfoldable pub parse_lines : ℕ → Loop
unfolding strip on_line
parse_lines zero lines conf current = out_of_fuel
parse_lines (suc n) [] conf current = read conf
parse_lines (suc n) (line ∷ lines) conf current =
    on_line (parse_lines n) (strip line) lines conf current

unfoldable pub parse_conf : List Text → Reading
unfolding parse_lines
parse_conf lines = parse_lines (suc (length lines)) lines [] none
