-- ===== src/Query/Tests.antt =====
-- The validator at concrete queries.
use app_datasource_validator.Prelude.{◌≡◌, refl, ◌≢◌, true, false, none, List, [], ◌∷◌}
use app_datasource_validator.Text.{Text, codes, ascii_lower, strip}
use app_datasource_validator.Query.{
  ParsedSearch, ParseReply, parsed, QueryValidator, validate, parsed_search, default_validator,
  disallowed_commands,
}
use app_datasource_validator.Query.Policy.{IsSafe, validate-allowed_iff, default-ignores_admin}
use app_datasource_validator.Query.Head.{IsFaithful, validate-IsFaithful}

-- A parser that finds `search | where` with a `collect` in a subsearch when asked to.
abbrev sample : List Text → ParseReply
sample every = parsed (
    parsed_search ascii_lower (codes " Search") (codes "search" ∷ codes "WHERE" ∷ []) every false
      none)

abbrev plain : QueryValidator
plain = default_validator ascii_lower (λ q. sample [])

query_program : Unit {0}
unfolding validate default_validator parsed_search ascii_lower
query_program = tt

allowed_with_head :
    (validate plain (codes " index=main ") false).executable_query ≡ codes "index=main | head 1"
unfolding query_program
allowed_with_head = refl

denied_in_subsearch :
    (validate
      (default_validator ascii_lower (λ q. sample (codes "search" ∷ codes "|Collect" ∷ [])))
      (codes "x")
      true).reason
    ≡ disallowed_commands (codes "collect" ∷ [])
unfolding query_program
denied_in_subsearch = refl

validate-allowed_iff_example :
    (strip (codes "x") ≢ [])
    × ((p : ParsedSearch) × (plain.parse (strip (codes "x")) ≡ parsed p) × IsSafe plain false p)
unfolding query_program
validate-allowed_iff_example = (validate-allowed_iff plain (codes "x") false).0 refl

default-ignores_admin_example : validate plain (codes "x") true ≡ validate plain (codes "x") false
default-ignores_admin_example = default-ignores_admin ascii_lower (λ q. sample []) (codes "x")

validate-IsFaithful_example : IsFaithful plain (codes "x") (validate plain (codes "x") false)
validate-IsFaithful_example = validate-IsFaithful plain (codes "x") false
