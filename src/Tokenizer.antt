-- ===== src/Tokenizer.antt =====
-- bin/app/splunk_client.py: `_split_top_level` and `_tokenize_pipeline`, which find the commands of
-- a normalized search, those of its subsearches included. `str.lower` is a parameter.
pub mod Termination
pub mod Segments
mod Tests
use app_datasource_validator.Prelude.{
  ℕ, zero, suc, ◌+◌, Bool, true, false, ◌||◌, Option, none, some, List, [], ◌∷◌, ◌++◌, eqb, is_nil,
  length, if◌then◌else◌,
}
use app_datasource_validator.Text.{Text, codes, is_space, strip}

abbrev pub is_quote : ℕ → Bool
is_quote c = eqb c 39 || eqb c 34

-- What the inner loop reads of a subsearch: the text up to its closing bracket, and the rest.
abbrev pub Inner : Type 0
Inner = Option (Text × Text)

abbrev pub read : Text → Inner → Inner
read cs none = none
read cs (some (inner, rest)) = some (cs ++ inner, rest)

-- The inner loop of `[`: `sub_quote`, `sub_depth` less one, and the text from `j` on; None where it
-- ends with `sub_depth != 0`. A backslash in quotes takes the next character along.
unfoldable pub scan_subsearch : Option ℕ → ℕ → Text → Inner
scan_subsearch sub_quote depth [] = none
scan_subsearch (some q) depth (c ∷ []) =
    let last = scan_subsearch (if eqb c q then none else some q) depth [] in read (c ∷ []) last
scan_subsearch (some q) depth (c ∷ d ∷ t) =
    let escaped = scan_subsearch (some q) depth t in
    let next = scan_subsearch (if eqb c q then none else some q) depth (d ∷ t) in
    if eqb c b'\\' then read (c ∷ d ∷ []) escaped else read (c ∷ []) next
scan_subsearch none zero (c ∷ t) =
    let quoted = scan_subsearch (some c) zero t in
    let deeper = scan_subsearch none 1 t in
    let next = scan_subsearch none zero t in
    if is_quote c
    then read (c ∷ []) quoted
    else if eqb c b'['
    then read (c ∷ []) deeper
    else if eqb c b']'
    then some ([], t)
    else read (c ∷ []) next
scan_subsearch none (suc depth) (c ∷ t) =
    let quoted = scan_subsearch (some c) (suc depth) t in
    let deeper = scan_subsearch none (suc (suc depth)) t in
    let back = scan_subsearch none depth t in
    let next = scan_subsearch none (suc depth) t in
    if is_quote c
    then read (c ∷ []) quoted
    else if eqb c b'['
    then read (c ∷ []) deeper
    else if eqb c b']'
    then read (c ∷ []) back
    else read (c ∷ []) next

-- The branches of the loops outside quotes.
pub data Kind : Type 0 where
  quote_mark opening closing bar other : Kind

abbrev pub kind_of : ℕ → Kind
kind_of c =
    if is_quote c
    then quote_mark
    else if eqb c b'['
    then opening
    else if eqb c b']'
    then closing
    else if eqb c b'|'
    then bar
    else other

-- `_TokenizeError`, with its three messages, or the two lists; `out_of_fuel` is no answer of the
-- program.
pub data Tokens : Type 0 where
  tokens : List Text → List Text → Tokens
  unbalanced_open unbalanced_close unterminated_quote out_of_fuel : Tokens

-- The variables of the outer loop; `depth` is 0 wherever the loop looks at it.
pub record Scan : Type 0 where
  pub segments : List Text
  pub subsearch_commands : List Text
  pub current : Text
  pub quote : Option ℕ

abbrev pub start : Scan
start = record { segments = []; subsearch_commands = []; current = []; quote = none }

abbrev pub push : Text → Option ℕ → Scan → Scan
push cs quote s = record s { current = s.current ++ cs; quote = quote }

abbrev pub end_segment : Scan → Scan
end_segment s = record s { segments = s.segments ++ s.current ∷ []; current = [] }

-- `seg.split()[0]`
unfoldable pub first_word : Text → Text
unfolding is_space
first_word [] = []
first_word (c ∷ t) = let rest = first_word t in if is_space c then [] else c ∷ rest

abbrev pub finish_with : Option ℕ → Scan → Tokens
finish_with (some q) s = unterminated_quote
finish_with none s = tokens (s.segments ++ s.current ∷ []) s.subsearch_commands

abbrev pub finish : Scan → Tokens
finish s = finish_with s.quote s

-- A round in the quotes `q`, at the character `c`: the variables and the text after it.
abbrev pub in_quotes : ℕ → ℕ → Text → Scan → Scan × Text
in_quotes q c [] s = (push (c ∷ []) (if eqb c q then none else some q) s, [])
in_quotes q c (d ∷ t) s =
    if eqb c b'\\'
    then (push (c ∷ d ∷ []) (some q) s, t)
    else (push (c ∷ []) (if eqb c q then none else some q) s, d ∷ t)

module _ (lower : Text → Text) where
  -- The commands of the segments that are not blank.
  unfoldable pub commands_of : List Text → List Text
  unfolding strip first_word
  commands_of [] = []
  commands_of (seg ∷ segs) =
      let rest = commands_of segs in
      if is_nil (strip seg) then rest else lower (first_word (strip seg)) ∷ rest

  -- After the subsearch `inner`: its commands, those of its own subsearches, and its text.
  abbrev pub add_subsearch : List Text → List Text → Text → Scan → Scan
  add_subsearch segs deeper inner s = record s {
    subsearch_commands = (s.subsearch_commands ++ commands_of segs) ++ deeper;
    current = s.current ++ b'[' ∷ (inner ++ b']' ∷ []);
  }

  module _ (next : Scan → Text → Tokens) where
    -- After the call on the subsearch `inner`.
    abbrev pub after_call : Scan → Text → Text → Tokens → Tokens
    after_call s inner rest (tokens segs deeper) = next (add_subsearch segs deeper inner s) rest
    after_call s inner rest error = error

    abbrev pub after_inner : Scan → Inner → Tokens
    after_inner s none = unbalanced_open
    after_inner s (some (inner, rest)) = after_call s inner rest (next start inner)

    -- The branches outside quotes.
    abbrev pub on_kind : Kind → ℕ → Scan → Text → Tokens
    on_kind quote_mark c s t = next (push (c ∷ []) (some c) s) t
    on_kind opening c s t = after_inner s (scan_subsearch none zero t)
    on_kind closing c s t = unbalanced_close
    on_kind bar c s t = next (end_segment s) t
    on_kind other c s t = next (push (c ∷ []) none s) t

    -- One round of the outer loop, at the character `c`.
    abbrev pub round : Option ℕ → ℕ → Scan → Text → Tokens
    round none c s t = on_kind (kind_of c) c s t
    round (some q) c s t = let (s', rest) = in_quotes q c t s in next s' rest

  -- The outer loop from `i` on. The fuel counts rounds, those of the calls on subsearches included.
  unfoldable pub scan : ℕ → Scan → Text → Tokens
  unfolding scan_subsearch commands_of
  scan zero s text = out_of_fuel
  scan (suc fuel) s [] = finish s
  scan (suc fuel) s (c ∷ t) = round (scan fuel) s.quote c s t

  unfoldable pub split_top_level : Text → Tokens
  unfolding scan
  split_top_level text = scan (suc (length text)) start text

  -- A bare filter expression is an implicit search.
  abbrev pub or_search : List Text → List Text
  or_search [] = codes "search" ∷ []
  or_search (c ∷ cs) = c ∷ cs

  abbrev pub drop_bar : Text → Text
  drop_bar [] = []
  drop_bar (c ∷ t) = if eqb c b'|' then t else c ∷ t

  -- The main commands and all commands, or the error.
  abbrev pub name_commands : Tokens → Tokens
  name_commands (tokens segs deeper) =
      let main = or_search (commands_of segs) in tokens main (main ++ deeper)
  name_commands error = error

  unfoldable pub tokenize_pipeline : Text → Tokens
  unfolding split_top_level strip commands_of
  tokenize_pipeline normalized = name_commands (split_top_level (drop_bar (strip normalized)))
