-- ===== src/SplunkClient/SearchParser.antt =====
-- bin/app/splunk_client.py: SplunkRestSearchParser. The messages of its exceptions are not kept.
pub mod FailClosed
use app_datasource_validator.Prelude.{
  ℕ, String, Bool, true, false, not, ◌&&◌, Option, none, some, List, [], ◌∷◌, is_nil, if◌then◌else◌,
}
use app_datasource_validator.Text.{Text, codes, strip}
use app_datasource_validator.Json.{
  Json, null, boolean, number, text, array, object, Items, empty_array, item, Fields, empty_object,
  field, lookup, get_or, truthy, or_json,
}
use app_datasource_validator.Query.{ParseReply, parsed, unavailable, raised, parsed_search}
use app_datasource_validator.Tokenizer.{
  Tokens, tokens, unbalanced_open, unbalanced_close, unterminated_quote, out_of_fuel,
  tokenize_pipeline,
}
use app_datasource_validator.SplunkClient.{
  Server, Request, Reply, replied, failed, crashed, request, get_request, field_of, then_reply,
}

-- A text that is not blank.
abbrev pub given_text : Json → Option Text
given_text (text s) = if is_nil (strip (codes s)) then none else some (codes s)
given_text other = none

abbrev pub or_top_level : Option Text → Fields → Option Text
or_top_level (some t) fields = some t
or_top_level none fields = given_text (get_or "search" null fields)

-- `content.get("search") or content.get("eai:search")` of the first entry, where it is such a text.
abbrev pub in_content : Json → Reply (Option Text)
in_content (object content) =
    replied (given_text (or_json (get_or "search" null content) (get_or "eai:search" null content)))
in_content other = crashed

abbrev pub in_entry : Json → Reply (Option Text)
in_entry entry = then_reply (field_of "content" (object empty_object) entry) in_content

abbrev pub in_entries : Json → Reply (Option Text)
in_entries (array (item entry rest)) = in_entry entry
in_entries other = replied none

unfoldable pub extract_normalized_search : Json → Reply (Option Text)
unfolding strip get_or truthy lookup
extract_normalized_search (object body) =
    then_reply (in_entries (get_or "entry" null body)) λ found. replied (or_top_level found body)
extract_normalized_search other = replied none

abbrev pub leading_of : List Text → Text
leading_of [] = []
leading_of (c ∷ cs) = c

-- The request that is sent for a query.
abbrev pub parser_request : String → Request
parser_request q =
    get_request "/servicesNS/nobody/datasource_validator/search/parser" (("q", text q) ∷ [])

module _ (lower : Text → Text) where
  abbrev pub ambiguous : Text → ParseReply
  ambiguous reason = parsed (parsed_search lower [] [] [] true (some reason))

  abbrev pub parsed_tokens : Tokens → ParseReply
  parsed_tokens (tokens main every) =
      parsed (parsed_search lower (leading_of main) main every false none)
  parsed_tokens unbalanced_open = ambiguous (codes "unbalanced '[' in normalized search")
  parsed_tokens unbalanced_close = ambiguous (codes "unbalanced ']' in normalized search")
  parsed_tokens unterminated_quote =
      ambiguous (codes "unterminated quoted string in normalized search")
  parsed_tokens out_of_fuel = raised []

  abbrev pub parsed_normalized : Reply (Option Text) → ParseReply
  parsed_normalized (replied (some normalized)) = parsed_tokens (tokenize_pipeline lower normalized)
  parsed_normalized (replied none) =
      ambiguous (codes "search/parser response did not contain a recognizable normalized search")
  parsed_normalized (failed status) = raised []
  parsed_normalized crashed = raised []

  abbrev pub parsed_body : Reply Json → ParseReply
  parsed_body (replied body) = parsed_normalized (extract_normalized_search body)
  parsed_body (failed status) = unavailable []
  parsed_body crashed = raised []

  -- The query is sent as it stands, as the string that the text is.
  unfoldable pub parse : Server → (Text → String) → Text → ParseReply
  unfolding request extract_normalized_search parsed_search tokenize_pipeline
  parse server as_string spl_query =
      parsed_body (request server (parser_request (as_string spl_query)) true)
