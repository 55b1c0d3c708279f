-- ===== src/Query.antt =====
-- bin/app/query_validator.py: the safety policy for search strings.
-- The parser is a service of the platform, so it is a function given to the validator.
pub mod Policy
pub mod Head
mod Tests
use app_datasource_validator.Prelude.{
  String, Bool, true, false, not, ◌&&◌, Option, none, some, List, [], ◌∷◌, ◌++◌, map, all, keep,
  is_nil, eqb, sort, if◌then◌else◌,
}
use app_datasource_validator.Text.{
  Text, codes, strip, lstrip_of, text_eq, text_leb, mem_text, frozenset,
}

pub record ParsedSearch : Type 0 where
  pub leading_command : Text
  pub main_pipeline_commands : List Text
  pub all_commands : List Text
  pub ambiguous : Bool
  pub ambiguous_reason : Option Text

-- What `parser.parse` does: it returns a search or None, raises ParserUnavailableError, or raises
-- anything else.
pub data ParseReply : Type 0 where
  parsed : ParsedSearch → ParseReply
  no_result : ParseReply
  unavailable : Text → ParseReply
  raised : Text → ParseReply

-- The messages of `validate`, one constructor for each format string.
pub data Reason : Type 0 where
  query_empty : Reason
  parser_unavailable : Text → Reason
  parser_raised : Text → Reason
  parser_no_result : Reason
  parse_ambiguous : Text → Reason
  no_leading_command : Reason
  disallowed_commands : List Text → Reason
  leading_not_allowed : Text → Reason
  is_ok : Reason

pub record QueryValidationResult : Type 0 where
  pub allowed : Bool
  pub reason : Reason
  pub normalized_query : Text
  pub executable_query : Text
  pub leading_command : Option Text
  pub all_commands : List Text
  pub head_appended : Bool

pub record QueryValidator : Type 0 where
  pub parse : Text → ParseReply
  pub denylist : List Text
  pub readonly_leading : List Text
  pub admin_leading : List Text
  pub streaming : List Text

abbrev pub default_denylist : List Text
default_denylist =
    codes "collect"
    ∷ codes "outputlookup"
    ∷ codes "outputcsv"
    ∷ codes "mcollect"
    ∷ codes "meventcollect"
    ∷ codes "tscollect"
    ∷ codes "sendemail"
    ∷ codes "sendalert"
    ∷ codes "script"
    ∷ codes "run"
    ∷ codes "rest"
    ∷ codes "delete"
    ∷ codes "map"
    ∷ codes "loadjob"
    ∷ codes "savedsearch"
    ∷ codes "dbxquery"
    ∷ []

abbrev pub default_readonly_leading_commands : List Text
default_readonly_leading_commands =
    codes "search"
    ∷ codes "tstats"
    ∷ codes "mstats"
    ∷ codes "from"
    ∷ codes "datamodel"
    ∷ codes "metadata"
    ∷ codes "inputlookup"
    ∷ []

abbrev pub streaming_commands : List Text
streaming_commands =
    codes "search"
    ∷ codes "where"
    ∷ codes "eval"
    ∷ codes "rex"
    ∷ codes "fields"
    ∷ codes "rename"
    ∷ codes "table"
    ∷ codes "lookup"
    ∷ codes "spath"
    ∷ codes "kv"
    ∷ codes "convert"
    ∷ codes "fillnull"
    ∷ codes "mvexpand"
    ∷ codes "strcat"
    ∷ codes "replace"
    ∷ codes "eval"
    ∷ codes "regex"
    ∷ codes "nomv"
    ∷ codes "makemv"
    ∷ []

module _ (lower : Text → Text) where
  -- `_normalize`: strip, lower, drop leading bars, strip.
  unfoldable pub normalize : Text → Text
  unfolding strip
  normalize command_name = strip (lstrip_of (λ c. eqb c b'|') (lower (strip command_name)))

  -- The constructor with its `__post_init__`.
  unfoldable pub parsed_search : Text → List Text → List Text → Bool → Option Text → ParsedSearch
  unfolding normalize
  parsed_search leading main every ambiguous why =
      let main_names = map normalize main in
      record {
        leading_command = normalize leading;
        main_pipeline_commands = main_names;
        all_commands = if is_nil every then main_names else map normalize every;
        ambiguous = ambiguous;
        ambiguous_reason = why;
      }

  -- `__init__`: every configured name is normalized.
  unfoldable pub query_validator :
      (Text → ParseReply) → List Text → List Text → List Text → List Text → QueryValidator
  unfolding normalize frozenset
  query_validator parse denylist readonly admin streaming = record {
    parse = parse;
    denylist = frozenset (map normalize denylist);
    readonly_leading = frozenset (map normalize readonly);
    admin_leading = frozenset (map normalize admin);
    streaming = frozenset (map normalize streaming);
  }

  -- `QueryValidator(parser)`, as the worker and the handlers construct it.
  unfoldable pub default_validator : (Text → ParseReply) → QueryValidator
  unfolding query_validator
  default_validator parse =
      query_validator parse default_denylist default_readonly_leading_commands [] streaming_commands

unfoldable pub is_pure_streaming : QueryValidator → ParsedSearch → Bool
unfolding mem_text
is_pure_streaming v p =
    text_eq p.leading_command (codes "search")
    && all (λ c. mem_text c v.streaming) p.main_pipeline_commands

-- A rejection that carries no parsed search.
abbrev pub reject : Text → Reason → QueryValidationResult
reject query reason = record {
  allowed = false;
  reason = reason;
  normalized_query = query;
  executable_query = query;
  leading_command = none;
  all_commands = [];
  head_appended = false;
}

abbrev pub reject_parsed : Text → ParsedSearch → Reason → QueryValidationResult
reject_parsed query p reason = record (reject query reason) {
  leading_command = some p.leading_command;
  all_commands = p.all_commands;
}

-- `parsed.ambiguous_reason or 'unspecified'`: the empty text is falsy too.
abbrev pub reason_text : Option Text → Text
reason_text none = codes "unspecified"
reason_text (some []) = codes "unspecified"
reason_text (some (c ∷ s)) = c ∷ s

abbrev pub head_suffix : Text
head_suffix = codes " | head 1"

-- The configured names that occur in the search, each once.
abbrev pub denylisted_hit : QueryValidator → ParsedSearch → List Text
denylisted_hit v p = keep (λ d. mem_text d p.all_commands) v.denylist

abbrev pub leading_allowed : QueryValidator → ParsedSearch → Bool → Bool
leading_allowed v p is_admin =
    if mem_text p.leading_command v.readonly_leading
    then true
    else is_admin && mem_text p.leading_command v.admin_leading

unfoldable pub accept : QueryValidator → Text → ParsedSearch → QueryValidationResult
unfolding is_pure_streaming
accept v query p =
    let pure = is_pure_streaming v p in
    record {
      allowed = true;
      reason = is_ok;
      normalized_query = query;
      executable_query = if pure then query ++ head_suffix else query;
      leading_command = some p.leading_command;
      all_commands = p.all_commands;
      head_appended = pure;
    }

-- The checks on a search that the parser returned.
unfoldable pub check_parsed : QueryValidator → Text → ParsedSearch → Bool → QueryValidationResult
unfolding accept mem_text text_leb
check_parsed v query p is_admin =
    let hit = denylisted_hit v p in
    if p.ambiguous
    then reject query (parse_ambiguous (reason_text p.ambiguous_reason))
    else if is_nil p.leading_command
    then reject query no_leading_command
    else if not (is_nil hit)
    then reject_parsed query p (disallowed_commands (sort text_leb hit))
    else if not (leading_allowed v p is_admin)
    then reject_parsed query p (leading_not_allowed p.leading_command)
    else accept v query p

unfoldable pub check_reply : QueryValidator → Text → ParseReply → Bool → QueryValidationResult
unfolding check_parsed
check_reply v query (unavailable e) is_admin = reject query (parser_unavailable e)
check_reply v query (raised e) is_admin = reject query (parser_raised e)
check_reply v query no_result is_admin = reject query parser_no_result
check_reply v query (parsed p) is_admin = check_parsed v query p is_admin

-- `QueryValidator.validate`; an absent query is the empty text.
unfoldable pub validate : QueryValidator → Text → Bool → QueryValidationResult
unfolding check_reply strip
validate v spl_query is_admin =
    let query = strip spl_query in
    if is_nil query then reject query query_empty else check_reply v query (v.parse query) is_admin
