-- ===== src/SplunkClient/SearchParser/FailClosed.antt =====
-- What the validator allows when its parser is the one of the search head.
use app_datasource_validator.Prelude.{
  String, ◌≡◌, refl, ap, ◌∙◌, Bool, true, false, Option, none, some, List,
}
use app_datasource_validator.Text.{Text, strip}
use app_datasource_validator.Text.Equality.{In}
use app_datasource_validator.Json.{Json}
use app_datasource_validator.Query.{
  ParseReply, parsed, ParsedSearch, default_validator, parsed_search, validate,
}
use app_datasource_validator.Query.Policy.{validate-allowed_iff}
use app_datasource_validator.Tokenizer.{
  Tokens, tokens, unbalanced_open, unbalanced_close, unterminated_quote, out_of_fuel,
  tokenize_pipeline,
}
use app_datasource_validator.SplunkClient.{Server, Reply, replied, failed, crashed, request}
use app_datasource_validator.SplunkClient.SearchParser.{
  parse, parsed_tokens, parsed_normalized, parsed_body, parser_request, extract_normalized_search,
  leading_of,
}

abbrev is_ambiguous : ParseReply → Bool
is_ambiguous (parsed p) = p.ambiguous
is_ambiguous error = true

clear-not_ambiguous :
    {r : ParseReply} {p : ParsedSearch}
    → r ≡ parsed p
    → p.ambiguous ≡ false
    → is_ambiguous r ≡ false
clear-not_ambiguous h clear = ap is_ambiguous h ∙ clear

no : true ≡ false → ⊥
no e = cc

module _ (lower : Text → Text) where
  abbrev pub searched : List Text → List Text → ParsedSearch
  searched main every = parsed_search lower (leading_of main) main every false none

  -- A search that is not ambiguous comes from a text that was split.
  from_tokens :
      (r : Tokens) (p : ParsedSearch)
      → parsed_tokens lower r ≡ parsed p
      → p.ambiguous ≡ false
      → (main : List Text) × (every : List Text) × (r ≡ tokens main every)
        × (searched main every ≡ p)
  from_tokens (tokens main every) p h clear = (main, every, refl, cc)
  from_tokens unbalanced_open p h clear =
      absurd (no (unfold parsed_search in clear-not_ambiguous h clear))
  from_tokens unbalanced_close p h clear =
      absurd (no (unfold parsed_search in clear-not_ambiguous h clear))
  from_tokens unterminated_quote p h clear =
      absurd (no (unfold parsed_search in clear-not_ambiguous h clear))
  from_tokens out_of_fuel p h clear = absurd (no (clear-not_ambiguous h clear))

  abbrev Found : Reply (Option Text) → ParsedSearch → Type 0
  Found r p =
      (t : Text) × (main : List Text) × (every : List Text) × (r ≡ replied (some t))
      × (tokenize_pipeline lower t ≡ tokens main every)
      × (searched main every ≡ p)

  from_normalized :
      (r : Reply (Option Text)) (p : ParsedSearch)
      → parsed_normalized lower r ≡ parsed p
      → p.ambiguous ≡ false
      → Found r p
  from_normalized (replied (some t)) p h clear =
      let (main, every, e, is) = from_tokens (tokenize_pipeline lower t) p h clear in
      (t, main, every, refl, e, is)
  from_normalized (replied none) p h clear =
      absurd (no (unfold parsed_search in clear-not_ambiguous h clear))
  from_normalized (failed status) p h clear = absurd (no (clear-not_ambiguous h clear))
  from_normalized crashed p h clear = absurd (no (clear-not_ambiguous h clear))

  from_body :
      (r : Reply Json) (p : ParsedSearch)
      → parsed_body lower r ≡ parsed p
      → p.ambiguous ≡ false
      → (body : Json) × (r ≡ replied body) × Found (extract_normalized_search body) p
  from_body (replied body) p h clear =
      (body, refl, from_normalized (extract_normalized_search body) p h clear)
  from_body (failed status) p h clear = absurd (no (clear-not_ambiguous h clear))
  from_body crashed p h clear = absurd (no (clear-not_ambiguous h clear))

  -- The parser of the search head fails closed. If a query is allowed, then the request for its
  -- stripped text was answered, the answer has a normalized search, that search was split without
  -- an error, and none of the commands found in it, those of subsearches included, is denied.
  pub parser-fails_closed :
      (server : Server) (as_string : Text → String) (q : Text) (is_admin : Bool)
      → (validate (default_validator lower (parse lower server as_string)) q is_admin).allowed
        ≡ true
      → (body : Json) × (request server (parser_request (as_string (strip q))) true ≡ replied body)
        × (t : Text) × (main : List Text) × (every : List Text) × (extract_normalized_search body
            ≡ replied (some t))
        × (tokenize_pipeline lower t ≡ tokens main every)
        × ((c : Text)
            → In c (default_validator lower (parse lower server as_string)).denylist
            → ¬ In c (searched main every).all_commands)
  parser-fails_closed server as_string q is_admin h =
      let v = default_validator lower (parse lower server as_string) in
      let (_, (p, e, safe)) = (validate-allowed_iff v q is_admin).0 h in
      let (body, answered, (t, main, every, x, s, is)) =
        from_body (request server (parser_request (as_string (strip q))) true) p
          (unfold default_validator parse in e) safe.clear in
      (body, answered, t, main, every, x, s, λ c denied. rw is (safe.not_denied c denied))
