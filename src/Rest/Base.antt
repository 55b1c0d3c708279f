-- ===== src/Rest/Base.antt =====
-- bin/app/rest_base.py: a request is read, its handler is called, and an exception becomes a status.
-- `json.loads` and `str.upper` are given.
use app_datasource_validator.Prelude.{
  ℕ, String, ◌==◌, ◌≡◌, Option, none, some, List, [], ◌∷◌, eqb, ◌⊎◌, if◌then◌else◌,
}
use app_datasource_validator.Text.{Text, codes, text_eq}
use app_datasource_validator.Json.{
  Json, null, boolean, number, text, array, object, Items, empty_array, item, Fields, empty_object,
  get_or, lookup, truthy, or_json,
}
use app_datasource_validator.Exec.{
  Error, Result, ok, err, rest_error, validation_error, capability_error, credential_error,
  not_found, value_error, key_error, Exec,
}
use app_datasource_validator.Rest.{error_status}

pub record RestRequest : Type 0 where
  pub method : Text
  pub path_segments : List Text
  pub query : List (String × Json)
  pub session : Json
  pub session_key : Json
  pub user : Json
  pub payload : Json

-- `text.split("/")`, without the empty parts.
abbrev pub not_empty : List Text → List Text
not_empty [] = []
not_empty ([] ∷ parts) = not_empty parts
not_empty ((c ∷ t) ∷ parts) = (c ∷ t) ∷ not_empty parts

abbrev pub extend : ℕ → List Text → List Text
extend c [] = (c ∷ []) ∷ []
extend c (part ∷ parts) = (c ∷ part) ∷ parts

unfoldable pub split_path : Text → List Text
split_path [] = [] ∷ []
split_path (c ∷ t) = let rest = split_path t in if eqb c b'/' then [] ∷ rest else extend c rest

-- `result[key] = value`
abbrev pub put : String → Json → List (String × Json) → List (String × Json)
put key value [] = (key, value) ∷ []
put key value ((k, v) ∷ rest) =
    let later = put key value rest in if k == key then (k, value) ∷ rest else (k, v) ∷ later

abbrev pub and_then {ℓ} : {A B : Type ℓ} → Result A → (A → Result B) → Result B
and_then (ok a) f = f a
and_then (err e) f = err e

-- A list of two, with a text as its key. A list or an object as a key is a TypeError, and keys of
-- other types are read by no handler.
abbrev pub add_pair : Json → List (String × Json) → Result (List (String × Json))
add_pair (array (item (text key) (item value empty_array))) result = ok (put key value result)
add_pair (array (item (array ks) (item value empty_array))) result = err rest_error
add_pair (array (item (object ks) (item value empty_array))) result = err rest_error
add_pair other result = ok result

unfoldable pub pairs_to_dict : Items → List (String × Json) → Result (List (String × Json))
pairs_to_dict empty_array result = ok result
pairs_to_dict (item pair pairs) result =
    and_then (add_pair pair result) (λ r. pairs_to_dict pairs r)

-- What a `for` loop over a value goes through; texts and objects have no pairs.
abbrev pub query_of : Json → Result (List (String × Json))
query_of (array pairs) = pairs_to_dict pairs []
query_of (text s) = ok []
query_of (object fs) = ok []
query_of null = err rest_error
query_of (boolean b) = err rest_error
query_of (number n) = err rest_error

abbrev pub or_object : Option Json → Json
or_object none = object empty_object
or_object (some j) = j

-- The methods of a text, and of an object; of anything else they are an AttributeError.
abbrev pub text_value : Json → Result Text
text_value (text s) = ok (codes s)
text_value other = err rest_error

abbrev pub object_value : Json → Result Fields
object_value (object fs) = ok fs
object_value other = err rest_error

-- The text under "error": one of the two that `handle` makes, or `str(e)` of an exception, as it is
-- or behind "internal error: ". An exception stands for its text.
pub data ErrorText : Type 0 where
  could_not_parse : ErrorText
  not_supported_here : Text → ErrorText
  exception_text internal_error : Error → ErrorText

-- What is sent as JSON: what the handler returned, or `{"error": message}`.
pub data Body (A : Type 0) : Type 0 where
  payload_of : A → Body A
  error_object : ErrorText → Body A

pub record Envelope (A : Type 0) : Type 0 where
  pub status : ℕ
  pub body : Body A

abbrev pub error_response : {A : Type 0} → ErrorText → ℕ → Envelope A
error_response message status = record { status = status; body = error_object message }

-- The message of each exception class; one without a clause of its own is an internal error.
unfoldable pub message_for : Error → ErrorText
message_for validation_error = exception_text validation_error
message_for capability_error = exception_text capability_error
message_for credential_error = exception_text credential_error
message_for not_found = exception_text not_found
message_for value_error = exception_text value_error
message_for key_error = internal_error key_error
message_for rest_error = internal_error rest_error

-- What a handler returns, with the status 200 where it gives none, or the answer to its exception.
unfoldable pub respond : {A : Type 0} → Result (A × ℕ) → Envelope A
unfolding message_for error_status
respond (ok (a, status)) = record { status = status; body = payload_of a }
respond (err e) = error_response (message_for e) (error_status e)

-- The methods that a class implements.
pub record Handlers (S A : Type 0) : Type 0 where
  pub get : Option (RestRequest → Exec S (A × ℕ))
  pub post : Option (RestRequest → Exec S (A × ℕ))
  pub put : Option (RestRequest → Exec S (A × ℕ))
  pub delete : Option (RestRequest → Exec S (A × ℕ))

unfoldable pub method_handler :
    {S A : Type 0} → Handlers S A → Text → Option (RestRequest → Exec S (A × ℕ))
unfolding text_eq
method_handler handlers method =
    if text_eq method (codes "GET")
    then handlers.get
    else if text_eq method (codes "POST")
    then handlers.post
    else if text_eq method (codes "PUT")
    then handlers.put
    else if text_eq method (codes "DELETE")
    then handlers.delete
    else none

-- The exception is of one of the classes.
abbrev pub IsOneOf : Error → List Error → Type 0
IsOneOf e [] = ⊥
IsOneOf e (c ∷ cs) = (e ≡ c) ⊎ IsOneOf e cs

module _ {S A : Type 0} where
  abbrev pub answer : Result (A × ℕ) × S → Result (Envelope A) × S
  answer (r, s) = (ok (respond r), s)

module _ (loads : String → Option Json) (upper : Text → Text) where
  unfoldable pub parse_payload : Json → Json
  parse_payload null = object empty_object
  parse_payload (text s) = if s == "" then object empty_object else or_object (loads s)
  parse_payload (object fs) = object fs
  parse_payload (array xs) = array xs
  parse_payload (boolean b) = object empty_object
  parse_payload (number n) = object empty_object

  -- `RestRequest(raw)`
  unfoldable pub rest_request : Json → Result RestRequest
  unfolding get_or lookup truthy split_path pairs_to_dict parse_payload
  rest_request raw = and_then (object_value raw) λ fs.
      and_then (text_value (or_json (get_or "method" null fs) (text "GET"))) λ method.
        and_then (text_value (or_json (get_or "path" null fs) (text ""))) λ path.
          and_then (query_of (or_json (get_or "query" null fs) (array empty_array))) λ query.
            and_then (object_value (or_json (get_or "session" null fs) (object empty_object)))
              λ session. ok (record {
                method = upper method;
                path_segments = not_empty (split_path path);
                query = query;
                session = object session;
                session_key = get_or "authtoken" null session;
                user = get_or "user" null session;
                payload = parse_payload (get_or "payload" null fs);
              })

  module _ {S A : Type 0} (handlers : Handlers S A) where
    abbrev pub call : Option (RestRequest → Exec S (A × ℕ)) → RestRequest → Exec S (Envelope A)
    call none request s = (ok (error_response (not_supported_here request.method) 405), s)
    call (some h) request s = answer (h request s)

    -- A request that RestRequest cannot be made of is an exception of `handle` itself.
    abbrev pub serve : Result RestRequest → Exec S (Envelope A)
    serve (err e) s = (err e, s)
    serve (ok request) s = call (method_handler handlers request.method) request s

    abbrev pub handle_loaded : Option Json → Exec S (Envelope A)
    handle_loaded none s = (ok (error_response could_not_parse 400), s)
    handle_loaded (some raw) s = serve (rest_request raw) s

    unfoldable pub handle : String → Exec S (Envelope A)
    unfolding rest_request method_handler respond
    handle in_string =
        handle_loaded (if in_string == "" then some (object empty_object) else loads in_string)

    -- What `handle` makes of a request, as an envelope and the state that is left.
    pub data Answers (request : RestRequest) (s : S) : Result (Envelope A) × S → Type 0 where
      not_supported :
          method_handler handlers request.method ≡ none
          → Answers request s (
            ok (record { status = 405; body = error_object (not_supported_here request.method) }),
            s,
          )
      returned :
          (h : RestRequest → Exec S (A × ℕ)) (a : A) (status : ℕ) (s' : S)
          → method_handler handlers request.method ≡ some h
          → h request s ≡ (ok (a, status), s')
          → Answers request s (ok (record { status = status; body = payload_of a }), s')
      refused :
          (h : RestRequest → Exec S (A × ℕ)) (e : Error) (s' : S)
          → method_handler handlers request.method ≡ some h
          → h request s ≡ (err e, s')
          → IsOneOf e (validation_error ∷ credential_error ∷ value_error ∷ [])
          → Answers request s
              (ok (record { status = 400; body = error_object (exception_text e) }), s')
      forbidden :
          (h : RestRequest → Exec S (A × ℕ)) (s' : S)
          → method_handler handlers request.method ≡ some h
          → h request s ≡ (err capability_error, s')
          → Answers request s (
            ok (record { status = 403; body = error_object (exception_text capability_error) }),
            s',
          )
      missing :
          (h : RestRequest → Exec S (A × ℕ)) (s' : S)
          → method_handler handlers request.method ≡ some h
          → h request s ≡ (err not_found, s')
          → Answers request s
              (ok (record { status = 404; body = error_object (exception_text not_found) }), s')
      failed :
          (h : RestRequest → Exec S (A × ℕ)) (e : Error) (s' : S)
          → method_handler handlers request.method ≡ some h
          → h request s ≡ (err e, s')
          → IsOneOf e (key_error ∷ rest_error ∷ [])
          → Answers request s
              (ok (record { status = 500; body = error_object (internal_error e) }), s')
