-- ===== src/SplunkClient/Collections.antt =====
-- bin/app/splunk_client.py: KVCollectionClient.
use Prim.Native.String.{◌++◌ as append}
use app_datasource_validator.Prelude.{
  ℕ, pos, String, ◌==◌, eqb, Bool, true, false, Option, none, some, List, [], ◌∷◌, ◌++◌,
  if◌then◌else◌,
}
use app_datasource_validator.Json.{Json, number, text, array, Items, empty_array, truthy}
use app_datasource_validator.SplunkClient.{
  Server, Request, post_method, delete_method, Content, empty, invalid, valid, Response, raised,
  response, Reply, replied, failed, crashed, request, is_bad, get_request, then_reply,
}

abbrev pub base_path : String → String
base_path collection =
    append "/servicesNS/nobody/datasource_validator/storage/collections/data/" collection

abbrev pub key_path : String → String → String
key_path collection key = append (base_path collection) (append "/" key)

-- A document as the body of a POST.
abbrev pub post_json : String → Json → Request
post_json path doc = record {
  path = path;
  method = post_method;
  getargs = [];
  postargs = [];
  jsonargs = some doc;
}

abbrev pub delete_request : String → List (String × Json) → Request
delete_request path args = record {
  path = path;
  method = delete_method;
  getargs = args;
  postargs = [];
  jsonargs = none;
}

-- The stored document is returned, or the given one for an empty content.
abbrev inserted : Json → Content → Reply Json
inserted doc empty = replied doc
inserted doc invalid = crashed
inserted doc (valid body) = replied body

abbrev insert_response : Json → Response → Reply Json
insert_response doc raised = crashed
insert_response doc (response status content) =
    if is_bad status then failed status else inserted doc content

abbrev update_response : Json → Response → Reply Json
update_response doc raised = crashed
update_response doc (response status content) = if is_bad status then failed status else replied doc

-- `limit` and `skip` of 0 are not sent, nor an empty `query` or `sort`.
abbrev pub number_arg : String → Option ℕ → List (String × Json)
number_arg name none = []
number_arg name (some n) = if eqb n 0 then [] else (name, number (pos n)) ∷ []

abbrev pub text_arg : String → Option String → List (String × Json)
text_arg name none = []
text_arg name (some s) = if s == "" then [] else (name, text s) ∷ []

abbrev pub query_arg : (Json → String) → Option Json → List (String × Json)
query_arg dumps none = []
query_arg dumps (some q) = if truthy q then ("query", text (dumps q)) ∷ [] else []

-- `body or None`; a status of 404 is None too.
abbrev or_missing : Json → Option Json
or_missing body = if truthy body then some body else none

abbrev is_missing : Option ℕ → Bool
is_missing none = false
is_missing (some status) = eqb status 404

abbrev got : Reply Json → Reply (Option Json)
got (replied body) = replied (or_missing body)
got (failed status) = if is_missing status then replied none else failed status
got crashed = crashed

abbrev listed : Json → Items
listed (array docs) = docs
listed other = empty_array

module _ (server : Server) (collection : String) where
  unfoldable pub insert : Json → Reply Json
  insert doc = insert_response doc (server (post_json (base_path collection) doc))

  unfoldable pub get : String → Reply (Option Json)
  unfolding request truthy
  get key = got (request server (get_request (key_path collection key) []) true)

  -- `json.dumps` is given.
  unfoldable pub query :
      (Json → String) → Option Json → Option String → Option ℕ → Option ℕ → Reply Items
  unfolding request truthy
  query dumps q sort limit skip =
      then_reply
        (request server
          (get_request (base_path collection) (
            query_arg dumps q
            ++ text_arg "sort" sort
            ++ number_arg "limit" limit
            ++ number_arg "skip" skip))
          true)
        (λ body. replied (listed body))

  unfoldable pub update : String → Json → Reply Json
  update key doc = update_response doc (server (post_json (key_path collection key) doc))

  unfoldable pub delete : String → Reply Json
  unfolding request
  delete key = request server (delete_request (key_path collection key) []) false

  unfoldable pub delete_query : (Json → String) → Json → Reply Json
  unfolding request
  delete_query dumps q =
      request server (delete_request (base_path collection) (("query", text (dumps q)) ∷ [])) false
