-- ===== src/SplunkClient.antt =====
-- bin/app/splunk_client.py: the requests to splunkd and what is read from the replies. The server is
-- `splunk.rest.simpleRequest`, a function that is given; the content of a reply is what `json.loads`
-- makes of it.
pub mod SearchParser
pub mod Jobs
pub mod Collections
pub mod StoragePasswords
mod Tests
use app_datasource_validator.Prelude.{
  ℕ, String, ◌==◌, Bool, true, false, not, ◌&&◌, ◌||◌, Option, none, some, List, [], ◌∷◌, leb,
  if◌then◌else◌,
}
use app_datasource_validator.Json.{
  Json, null, boolean, number, text, array, object, Items, empty_array, item, Fields, empty_object,
  field, lookup, get_or, truthy, or_json,
}

pub data Method : Type 0 where
  get_method post_method delete_method : Method

-- The arguments of `simpleRequest`; `output_mode=json` is sent with each.
pub record Request : Type 0 where
  pub path : String
  pub method : Method
  pub getargs : List (String × Json)
  pub postargs : List (String × Json)
  pub jsonargs : Option Json

pub data Content : Type 0 where
  empty invalid : Content
  valid : Json → Content

-- The call raises, or there is a response, whose status may be missing.
pub data Response : Type 0 where
  raised : Response
  response : Option ℕ → Content → Response

abbrev pub Server : Type 0
Server = Request → Response

-- `SplunkRestError` carries the status; `crashed` is any other exception, such as that of an
-- attribute that a value has not.
pub data Reply {ℓ} (A : Type ℓ) : Type ℓ where
  replied : A → Reply A
  failed : Option ℕ → Reply A
  crashed : Reply A

abbrev pub is_bad : Option ℕ → Bool
is_bad none = true
is_bad (some status) = leb 300 status

abbrev pub get_request : String → List (String × Json) → Request
get_request path args = record {
  path = path;
  method = get_method;
  getargs = args;
  postargs = [];
  jsonargs = none;
}

abbrev pub post_request : String → List (String × Json) → Request
post_request path args = record {
  path = path;
  method = post_method;
  getargs = [];
  postargs = args;
  jsonargs = none;
}

-- The content of a response whose status is accepted.
abbrev pub loaded : Bool → Content → Reply Json
loaded raise_on_error empty = replied (object empty_object)
loaded raise_on_error (valid body) = replied body
loaded raise_on_error invalid =
    if raise_on_error then failed none else replied (object empty_object)

abbrev pub read_response : Bool → Response → Reply Json
read_response raise_on_error raised = failed none
read_response raise_on_error (response status content) =
    if raise_on_error && is_bad status then failed status else loaded raise_on_error content

unfoldable pub request : Server → Request → Bool → Reply Json
request server r raise_on_error = read_response raise_on_error (server r)

abbrev pub session_of : Json → Reply Json
session_of (object fields) =
    if truthy (get_or "sessionKey" null fields)
    then replied (get_or "sessionKey" null fields)
    else failed none
session_of other = crashed

abbrev login_content : Content → Reply Json
login_content empty = failed none
login_content invalid = failed none
login_content (valid body) = session_of body

abbrev login_response : Response → Reply Json
login_response raised = crashed
login_response (response status content) =
    if is_bad status then failed status else login_content content

-- The session key.
unfoldable pub login : Server → String → String → Reply Json
unfolding get_or truthy lookup
login server username password = login_response (
    server (
      post_request "/services/auth/login"
        (("username", text username) ∷ ("password", text password) ∷ [])))

-- `body.get("entry", []) if isinstance(body, dict) else []`
abbrev pub entries_of : Json → Json
entries_of (object fields) = get_or "entry" (array empty_array) fields
entries_of other = array empty_array

-- `entries[0]`, which is there where `entries` is truthy.
abbrev pub first_entry : Json → Reply Json
first_entry (array (item entry rest)) = replied entry
first_entry other = crashed

-- `value.get(key, default)`
abbrev pub field_of : String → Json → Json → Reply Json
field_of key default (object fields) = replied (get_or key default fields)
field_of key default other = crashed

abbrev pub then_reply {ℓ} : {A B : Type ℓ} → Reply A → (A → Reply B) → Reply B
then_reply (replied a) f = f a
then_reply (failed status) f = failed status
then_reply crashed f = crashed

abbrev capabilities_in : Json → Reply Json
capabilities_in body =
    if not (truthy (entries_of body))
    then replied (array empty_array)
    else then_reply (first_entry (entries_of body)) λ entry.
      then_reply (field_of "content" (object empty_object) entry) λ content.
        then_reply (field_of "capabilities" (array empty_array) content)
          λ names. replied (or_json names (array empty_array))

abbrev or_no_capabilities : Reply Json → Reply Json
or_no_capabilities (replied body) = capabilities_in body
or_no_capabilities (failed status) = replied (array empty_array)
or_no_capabilities crashed = crashed

unfoldable pub get_current_user_capabilities : Server → Reply Json
unfolding request truthy get_or lookup
get_current_user_capabilities server =
    or_no_capabilities
      (request server (get_request "/services/authentication/current-context" []) true)

unfoldable pub set_app_configured : Server → Reply Json
unfolding request
set_app_configured server =
    request server
      (post_request "/servicesNS/nobody/datasource_validator/properties/app/install"
        (("is_configured", text "true") ∷ []))
      true

unfoldable pub enable_modular_input : Server → Reply Json
unfolding request
enable_modular_input server =
    request server
      (post_request
        "/servicesNS/nobody/datasource_validator/data/inputs/dsv_validation_worker/main/enable" [])
      true
