-- ===== src/Query/Head.antt =====
-- Which text is executed.
use app_datasource_validator.Prelude.{
  ◌≡◌, refl, Bool, true, List, [], ◌∷◌, ◌++◌, arith, if◌then◌else◌, All, all, is_nil, Bool-cases,
  inl, inr,
}
use app_datasource_validator.Text.{Text, codes, strip, mem_text}
use app_datasource_validator.Text.Equality.{In, mem_text→In, text_eq→eq}
use app_datasource_validator.Query.{
  ParsedSearch, ParseReply, parsed, no_result, unavailable, raised, QueryValidator,
  QueryValidationResult, check_parsed, check_reply, validate, is_pure_streaming, head_suffix,
}

-- What the result says of the text to execute.
pub record IsFaithful (v : QueryValidator) (q : Text) (r : QueryValidationResult) : Type 0 where
  pub normalized : r.normalized_query ≡ strip q
  pub executable :
      r.executable_query
      ≡ (if r.head_appended then r.normalized_query ++ head_suffix else r.normalized_query)
  pub only_allowed : r.head_appended ≡ true → r.allowed ≡ true
  pub only_streaming :
      r.head_appended ≡ true
      → (p : ParsedSearch) × (v.parse (strip q) ≡ parsed p)
        × (p.leading_command ≡ codes "search")
        × All (λ c. In c v.streaming) p.main_pipeline_commands

all-In :
    (cs streaming : List Text)
    → all (λ c. mem_text c streaming) cs ≡ true
    → All (λ c. In c streaming) cs
all-In [] streaming h = tt
all-In (c ∷ cs) streaming h =
    (mem_text→In c streaming (ground arith), all-In cs streaming (ground arith))

pure-streaming :
    (v : QueryValidator) (p : ParsedSearch)
    → is_pure_streaming v p ≡ true
    → (p.leading_command ≡ codes "search") × All (λ c. In c v.streaming) p.main_pipeline_commands
unfolding is_pure_streaming
pure-streaming v p h = (text_eq→eq _ _ (ground arith), all-In _ _ (ground arith))

module _ (v : QueryValidator) (q : Text) (is_admin : Bool) where
  abbrev Says : QueryValidationResult → Type 0
  Says r =
      (r.normalized_query ≡ strip q)
      × (r.executable_query
          ≡ (if r.head_appended then r.normalized_query ++ head_suffix else r.normalized_query))
      × (r.head_appended ≡ true → r.allowed ≡ true)

  check_parsed-Says : (p : ParsedSearch) → Says (check_parsed v (strip q) p is_admin)
  unfolding check_parsed
  check_parsed-Says p = (ground arith, ground arith, λ h. ground arith)

  check_parsed-pure :
      (p : ParsedSearch)
      → (check_parsed v (strip q) p is_admin).head_appended ≡ true
      → is_pure_streaming v p ≡ true
  unfolding check_parsed
  check_parsed-pure p h = ground arith

  reply-IsFaithful :
      (r : ParseReply) → v.parse (strip q) ≡ r → IsFaithful v q (check_reply v (strip q) r is_admin)
  unfolding check_reply
  reply-IsFaithful (parsed p) e =
      let s = check_parsed-Says p in
      record {
        normalized = s.0;
        executable = s.1;
        only_allowed = s.2;
        only_streaming =
            λ h. let (a, b) = pure-streaming v p (check_parsed-pure p h) in (p, e, a, b);
      }
  reply-IsFaithful no_result e = record {
    normalized = refl;
    executable = refl;
    only_allowed = λ h. cc;
    only_streaming = λ h. cc;
  }
  reply-IsFaithful (unavailable _) e = record {
    normalized = refl;
    executable = refl;
    only_allowed = λ h. cc;
    only_streaming = λ h. cc;
  }
  reply-IsFaithful (raised _) e = record {
    normalized = refl;
    executable = refl;
    only_allowed = λ h. cc;
    only_streaming = λ h. cc;
  }

  -- Whatever the outcome, the normalized text is the stripped query, and the text to execute is
  -- that text, with " | head 1" behind it if and only if the result says so. It says so only for a
  -- query that is allowed, whose leading command is "search" and whose main pipeline has streaming
  -- commands only.
  pub validate-IsFaithful : IsFaithful v q (validate v q is_admin)
  unfolding validate
  validate-IsFaithful = elim (Bool-cases (is_nil (strip q))) [
    | inl e ↦ rw e record {
      normalized = refl;
      executable = refl;
      only_allowed = λ h. cc;
      only_streaming = λ h. cc;
    }
    | inr e ↦ rw e (reply-IsFaithful (v.parse (strip q)) refl)
  ]
