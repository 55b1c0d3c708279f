-- ===== src/SplunkClient/StoragePasswords.antt =====
-- bin/app/splunk_client.py: StoragePasswordsClient. What it reads of an entry are JSON values.
use Prim.Native.String.{◌++◌ as append}
use app_datasource_validator.Prelude.{
  pos, String, ◌==◌, true, false, Option, none, some, List, [], ◌∷◌, if◌then◌else◌,
}
use app_datasource_validator.Json.{
  Json, null, number, text, array, object, Items, empty_array, item, empty_object, lookup, get_or,
  truthy,
}
use app_datasource_validator.SplunkClient.{
  Server, Reply, replied, crashed, request, entries_of, first_entry, then_reply, get_request,
  post_request,
}
use app_datasource_validator.SplunkClient.Collections.{delete_request}

pub record StoragePasswordEntry : Type 0 where
  pub name : Json
  pub username : Json
  pub clear_password : Json
  pub realm : Json

abbrev pub passwords_path : String
passwords_path = "/servicesNS/nobody/datasource_validator/storage/passwords"

abbrev entry_with : Json → Json → Reply StoragePasswordEntry
entry_with name (object content) = replied (record {
  name = name;
  username = get_or "username" null content;
  clear_password = get_or "clear_password" null content;
  realm = get_or "realm" null content;
})
entry_with name other = crashed

abbrev read_entry : Json → Reply StoragePasswordEntry
read_entry (object entry) =
    entry_with (get_or "name" null entry) (get_or "content" (object empty_object) entry)
read_entry other = crashed

-- The entries in order; the first that cannot be read ends the loop with an exception.
unfoldable pub read_entries : Items → Reply (List StoragePasswordEntry)
unfolding get_or lookup
read_entries empty_array = replied []
read_entries (item entry rest) =
    let later = read_entries rest in
    then_reply (read_entry entry) λ e. then_reply later λ es. replied (e ∷ es)

-- A loop over `entries`: an object and a text are looped over too, and what they give has no `get`.
abbrev entries_from : Json → Reply (List StoragePasswordEntry)
entries_from (array es) = read_entries es
entries_from (object empty_object) = replied []
entries_from (text s) = if s == "" then replied [] else crashed
entries_from other = crashed

-- `__iter__`
unfoldable pub iterate : Server → Reply (List StoragePasswordEntry)
unfolding request get_or lookup read_entries
iterate server =
    then_reply (request server (get_request passwords_path (("count", number (pos 0)) ∷ [])) true)
      λ body. entries_from (entries_of body)

abbrev realm_arg : Option String → List (String × Json)
realm_arg none = []
realm_arg (some realm) = if realm == "" then [] else ("realm", text realm) ∷ []

abbrev or_null : Option String → Json
or_null none = null
or_null (some s) = text s

-- The entry of the reply, or the one that was asked for.
abbrev created : Json → StoragePasswordEntry → Reply StoragePasswordEntry
created body asked =
    if truthy (entries_of body)
    then then_reply (first_entry (entries_of body)) read_entry
    else replied asked

unfoldable pub create : Server → String → Option String → Option String → Reply StoragePasswordEntry
unfolding request get_or lookup truthy
create server password username realm =
    then_reply
      (request server
        (post_request passwords_path
          (("password", text password) ∷ ("name", or_null username) ∷ realm_arg realm))
        true)
      (λ body. created body (record {
        name = or_null username;
        username = or_null username;
        clear_password = text password;
        realm = or_null realm;
      }))

unfoldable pub delete : Server → String → Reply Json
unfolding request
delete server name =
    request server (delete_request (append passwords_path (append "/" name)) []) false
