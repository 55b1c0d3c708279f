-- ===== src/SplunkClient/Jobs.antt =====
-- bin/app/splunk_client.py: SearchJobClient. A text is sent as the string that it is.
use app_datasource_validator.Prelude.{
  ℤ, pos, String, Bool, true, false, Option, none, some, [], ◌∷◌, ◌++◌, eqb, if◌then◌else◌,
}
use Prim.Native.String.{◌++◌ as append}
use app_datasource_validator.Text.{Text, codes, strip, mem_text}
use app_datasource_validator.Json.{
  Json, null, number, text, array, object, empty_array, item, Fields, empty_object, lookup, get_or,
  truthy, or_json, int_json,
}
use app_datasource_validator.Exec.{Result, ok, err}
use app_datasource_validator.SplunkClient.{
  Server, Reply, replied, failed, crashed, request, get_request, post_request, field_of, then_reply,
}

abbrev pub jobs_path : String
jobs_path = "/servicesNS/nobody/datasource_validator/search/jobs"

abbrev pub starts_with_bar : Text → Bool
starts_with_bar [] = false
starts_with_bar (c ∷ t) = eqb c b'|'

-- The `search` argument.
unfoldable pub search_argument : Text → Text
unfolding strip
search_argument query = if starts_with_bar (strip query) then query else codes "search " ++ query

abbrev pub job_path : String → String
job_path sid = append jobs_path (append "/" sid)

abbrev sid_of : Json → Reply Json
sid_of (object fields) =
    if truthy (get_or "sid" null fields) then replied (get_or "sid" null fields) else failed none
sid_of other = failed none

abbrev pub job_content : Json → Reply Json
job_content (object body) = content_of (get_or "entry" null body)
  where
    or_content : Option Json → Reply Json
    or_content none = replied (object empty_object)
    or_content (some content) = replied content

    content_of : Json → Reply Json
    content_of (array (item entry rest)) = field_of "content" (object empty_object) entry
    content_of other = or_content (lookup "content" body)
job_content other = replied (object empty_object)

-- What `poll` returns; the messages are those of the reply.
pub record PolledJob : Type 0 where
  pub is_done : Bool
  pub is_failed : Bool
  pub result_count : ℤ
  pub messages : Json

module _ (lower : Text → Text) (to_int : Text → Option ℤ) (as_string : Text → String) where
  unfoldable pub as_bool : Json → Bool
  unfolding mem_text strip truthy
  as_bool (text s) =
      mem_text (lower (strip (codes s))) (codes "1" ∷ codes "true" ∷ codes "yes" ∷ [])
  as_bool other = truthy other

  abbrev replied_int : Result ℤ → Reply ℤ
  replied_int (ok n) = replied n
  replied_int (err e) = crashed

  unfoldable pub dispatch : Server → Text → Json → Json → ℤ → Reply Json
  unfolding request search_argument get_or truthy lookup
  dispatch server executable_query earliest_time latest_time max_time_sec =
      then_reply
        (request server
          (post_request jobs_path (
            ("search", text (as_string (search_argument executable_query)))
            ∷ ("earliest_time", earliest_time)
            ∷ ("latest_time", latest_time)
            ∷ ("max_time", number max_time_sec)
            ∷ ("exec_mode", text "normal")
            ∷ []))
          true)
        sid_of

  abbrev polled : Fields → Reply PolledJob
  polled content =
      then_reply
        (replied_int
          (int_json to_int (or_json (get_or "resultCount" null content) (number (pos 0)))))
        λ n. replied (record {
          is_done = as_bool (get_or "isDone" null content);
          is_failed = as_bool (get_or "isFailed" null content);
          result_count = n;
          messages = or_json (get_or "messages" null content) (array empty_array);
        })

  abbrev polled_content : Json → Reply PolledJob
  polled_content (object content) = polled content
  polled_content other = crashed

  unfoldable pub poll : Server → String → Reply PolledJob
  unfolding request get_or truthy lookup as_bool int_json
  poll server sid =
      then_reply (request server (get_request (job_path sid) []) true)
        λ body. then_reply (job_content body) polled_content

-- Errors are ignored; the request is all that happens.
unfoldable pub cancel : Server → String → Reply Json
unfolding request
cancel server sid =
    request server
      (post_request (append (job_path sid) "/control") (("action", text "cancel") ∷ [])) false
