-- ===== src/Query/Policy.antt =====
-- Which queries the validator allows.
use app_datasource_validator.Prelude.{
  ◌≡◌, refl, ◌≢◌, ◌↔◌, ◌⊎◌, inl, inr, Bool, true, false, List, [], ◌∷◌, keep, is_nil, arith,
  Bool-cases,
}
use app_datasource_validator.Text.{Text, strip, mem_text, frozenset}
use app_datasource_validator.Text.Equality.{In, mem_text→In, In→mem_text}
use app_datasource_validator.Query.{
  ParsedSearch, ParseReply, parsed, no_result, unavailable, raised, QueryValidator, check_parsed,
  check_reply, validate, leading_allowed, default_validator,
}

-- What HANDOFF.md asks of a search before it may be run.
pub record IsSafe (v : QueryValidator) (is_admin : Bool) (p : ParsedSearch) : Type 0 where
  pub clear : p.ambiguous ≡ false
  pub named : p.leading_command ≢ []
  pub not_denied : (c : Text) → In c v.denylist → ¬ In c p.all_commands
  pub leading :
      In p.leading_command v.readonly_leading
      ⊎ ((is_admin ≡ true) × In p.leading_command v.admin_leading)

module _ (every : List Text) where
  hit-none :
      (deny : List Text)
      → is_nil (keep (λ d. mem_text d every) deny) ≡ true
      → (c : Text) → In c deny
      → ¬ In c every
  hit-none [] h c m = absurd m
  hit-none (d ∷ deny) h c (inl e) = λ m. ground (arith, In→mem_text d every (rw e at m))
  hit-none (d ∷ deny) h c (inr m) = hit-none deny (ground arith) c m

  none-hit :
      (deny : List Text)
      → ((c : Text) → In c deny → ¬ In c every)
      → is_nil (keep (λ d. mem_text d every) deny) ≡ true
  none-hit [] h = refl
  none-hit (d ∷ deny) h = elim (Bool-cases (mem_text d every)) [
    | inl e ↦ absurd (h d (inl refl) (mem_text→In d every e))
    | inr e ↦ rw e (none-hit deny (λ c m. h c (inr m)))
  ]

module _ (v : QueryValidator) (p : ParsedSearch) (is_admin : Bool) where
  leading_allowed_iff : (leading_allowed v p is_admin ≡ true) ↔ (
      In p.leading_command v.readonly_leading
      ⊎ ((is_admin ≡ true) × In p.leading_command v.admin_leading))
  leading_allowed_iff = (
    λ h. elim (Bool-cases (mem_text p.leading_command v.readonly_leading)) [
      | inl e ↦ inl (mem_text→In _ _ e)
      | inr e ↦ inr (ground (arith, e), mem_text→In _ _ (ground (arith, e)))
    ],
    elim [ inl m ↦ rw (In→mem_text _ _ m) refl | inr m ↦ ground (arith, In→mem_text _ _ m.1) ],
  )

  check_parsed-allowed :
      (q : Text) → ((check_parsed v q p is_admin).allowed ≡ true) ↔ IsSafe v is_admin p
  unfolding check_parsed
  check_parsed-allowed q = (
    λ h. record {
      clear = ground arith;
      named = ground arith;
      not_denied = hit-none p.all_commands v.denylist (ground arith);
      leading = leading_allowed_iff.0 (ground arith);
    },
    λ s. ground (
      arith,
      s.clear,
      s.named,
      none-hit p.all_commands v.denylist s.not_denied,
      leading_allowed_iff.1 s.leading,
    ),
  )

-- A query is allowed exactly when it is not blank, the parser returns a search for the stripped
-- text, that search is not ambiguous and has a leading command, none of its commands (those of
-- subsearches included) is on the denylist, and the leading command is read-only or, for an
-- administrator, on the administrators' list.
pub validate-allowed_iff :
    (v : QueryValidator) (q : Text) (is_admin : Bool)
    → ((validate v q is_admin).allowed ≡ true) ↔ (
        (strip q ≢ [])
        × ((p : ParsedSearch) × (v.parse (strip q) ≡ parsed p) × IsSafe v is_admin p))
unfolding validate
validate-allowed_iff v q is_admin = (
  λ h. (ground arith, reply_allowed (v.parse (strip q)) refl (ground arith)),
  λ (nonempty, (p, e, safe)).
      rw (e, validate)
        (ground (arith, nonempty, (check_parsed-allowed v p is_admin (strip q)).1 safe)),
)
  where
    reply_allowed :
        (r : ParseReply)
        → v.parse (strip q) ≡ r
        → (check_reply v (strip q) r is_admin).allowed ≡ true
        → (p : ParsedSearch) × (v.parse (strip q) ≡ parsed p) × IsSafe v is_admin p
    reply_allowed (parsed p) e h = (p, e, (check_parsed-allowed v p is_admin (strip q)).0 h)
    reply_allowed no_result e h = cc
    reply_allowed (unavailable _) e h = cc
    reply_allowed (raised _) e h = cc

module _ (v : QueryValidator) (no_admin : v.admin_leading ≡ []) where
  leading_allowed-no_admin :
      (p : ParsedSearch) → leading_allowed v p true ≡ leading_allowed v p false
  unfolding mem_text
  leading_allowed-no_admin p = rw no_admin refl

  check_parsed-no_admin :
      (q : Text) (p : ParsedSearch) → check_parsed v q p true ≡ check_parsed v q p false
  unfolding check_parsed
  check_parsed-no_admin q p = rw (leading_allowed-no_admin p) refl

  check_reply-no_admin :
      (q : Text) (r : ParseReply) → check_reply v q r true ≡ check_reply v q r false
  unfolding check_reply
  check_reply-no_admin q (parsed p) = check_parsed-no_admin q p
  check_reply-no_admin q no_result = refl
  check_reply-no_admin q (unavailable _) = refl
  check_reply-no_admin q (raised _) = refl

  validate-no_admin : (q : Text) → validate v q true ≡ validate v q false
  unfolding validate
  validate-no_admin q = rw (check_reply-no_admin (strip q) (v.parse (strip q))) refl

-- With the default configuration, in which the worker and every handler construct the validator,
-- the administrator flag changes nothing: the whole result is the same with and without it.
pub default-ignores_admin :
    (lower : Text → Text) (parse : Text → ParseReply) (q : Text)
    → validate (default_validator lower parse) q true
      ≡ validate (default_validator lower parse) q false
default-ignores_admin lower parse =
    validate-no_admin (default_validator lower parse) (unfold default_validator frozenset in refl)
