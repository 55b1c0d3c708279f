-- ===== src/SplunkClient/Tests.antt =====
-- The client over a server that answers each path with a fixed body.
use app_datasource_validator.Prelude.{
  ℕ, ℤ, pos, String, ◌≡◌, refl, true, false, Option, none, some, List, [],
}
use app_datasource_validator.Text.{Text, codes, ascii_lower}
use app_datasource_validator.Text.Equality.{In}
use app_datasource_validator.Json.{
  Json, text, array, object, empty_array, item, empty_object, field,
}
use app_datasource_validator.Query.{default_validator, validate, unavailable}
use app_datasource_validator.Tokenizer.{tokens, tokenize_pipeline}
use app_datasource_validator.SplunkClient.{
  Server, response, raised, valid, empty, replied, request, login, get_current_user_capabilities,
}
use app_datasource_validator.SplunkClient.SearchParser.{
  parse, parser_request, extract_normalized_search,
}
use app_datasource_validator.SplunkClient.SearchParser.FailClosed.{searched, parser-fails_closed}
use app_datasource_validator.SplunkClient.Jobs.{search_argument, PolledJob}
use app_datasource_validator.SplunkClient.Jobs
use app_datasource_validator.SplunkClient.Collections

abbrev one_entry : Json → Json
one_entry content = object (
    field "entry" (array (item (object (field "content" content empty_object)) empty_array))
      empty_object)

abbrev answering : Option ℕ → Json → Server
answering status body r = response status (valid body)

abbrev parser_reply : Json
parser_reply = one_entry (object (field "search" (text "search index=os | where x") empty_object))

abbrev as_string : Text → String
as_string t = "index=os | where x"

abbrev to_int : Text → Option ℤ
to_int t = some (pos 3)

client_program : Unit {0}
unfolding parse validate default_validator ascii_lower login get_current_user_capabilities
    search_argument Jobs.poll Collections.get Collections.query tokenize_pipeline
    extract_normalized_search
client_program = tt

server_down :
    parse ascii_lower (λ r. response (some 503) empty) as_string (codes "q") ≡ unavailable []
unfolding client_program
server_down = refl

missing_document :
    Collections.get (λ r. response (some 404) empty) "dsv_settings" "k" ≡ replied none
unfolding client_program
missing_document = refl

no_capabilities : get_current_user_capabilities (λ r. raised) ≡ replied (array empty_array)
unfolding client_program
no_capabilities = refl

-- A query that is written with its command is sent with that command twice.
search_twice : search_argument (codes "search index=os") ≡ codes "search search index=os"
unfolding client_program
search_twice = refl

job_done :
    Jobs.poll ascii_lower to_int
      (λ t. "")
      (answering (some 200) (
        one_entry
          (object (field "isDone" (text "1") (field "resultCount" (text "3") empty_object)))))
      "sid1"
    ≡ replied (record {
      is_done = true;
      is_failed = false;
      result_count = pos 3;
      messages = array empty_array;
    })
unfolding client_program
job_done = refl

parser-fails_closed_example :
    (body : Json) × (request
        (answering (some 200) parser_reply)
        (parser_request "index=os | where x")
        true
      ≡ replied body)
    × (t : Text) × (main : List Text) × (every : List Text) × (extract_normalized_search body
        ≡ replied (some t))
    × (tokenize_pipeline ascii_lower t ≡ tokens main every)
    × ((c : Text)
        → In c
            (default_validator ascii_lower
              (parse ascii_lower (answering (some 200) parser_reply) as_string)).denylist
        → ¬ In c (searched ascii_lower main every).all_commands)
unfolding client_program
parser-fails_closed_example =
    parser-fails_closed ascii_lower (answering (some 200) parser_reply) as_string
      (codes "index=os | where x") false refl
