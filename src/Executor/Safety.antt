-- ===== src/Executor/Safety.antt =====
-- What is sent to the search head.
use app_datasource_validator.Prelude.{
  String, ◌≡◌, refl, ◌≢◌, ◌↔◌, inl, inr, Bool, true, false, some, [], ◌∷◌, ◌++◌, Bool-cases,
}
use app_datasource_validator.Text.{codes, strip}
use app_datasource_validator.Query.{QueryValidationResult, ParsedSearch, parsed, validate}
use app_datasource_validator.Query.Policy.{IsSafe, validate-allowed_iff}
use app_datasource_validator.Exec.{Error, Result, ok, err}
use app_datasource_validator.Models.ValidationResult.{rejected, dispatch_failed}
use app_datasource_validator.Stores.{Stores, dispatched}
use app_datasource_validator.Executor.{
  SearchExecutor, DispatchResult, refused, dispatch, dispatch_reply,
}

module _ (x : SearchExecutor) (q : String) (is_admin : Bool) (s : Stores) where
  abbrev verdict : QueryValidationResult
  verdict = validate x.query_validator (codes q) is_admin

  -- What the search head answers to the executable form of the query.
  abbrev answer : Result String
  answer =
      x.job_client.dispatch verdict.executable_query x.earliest_time x.latest_time x.max_time_sec

  -- The text is not blank, the parser makes a search of it, and that search is safe.
  abbrev pub IsApproved : Type 0
  IsApproved =
      (strip (codes q) ≢ [])
      × ((p : ParsedSearch) × (x.query_validator.parse (strip (codes q)) ≡ parsed p)
          × IsSafe x.query_validator is_admin p)

  approved_iff : (verdict.allowed ≡ true) ↔ IsApproved
  approved_iff = validate-allowed_iff x.query_validator (codes q) is_admin

  -- A dispatch, by its result and the state that it leaves.
  pub record IsGuarded (o : Result DispatchResult × Stores) : Type 0 where
    pub result : DispatchResult
    pub returned : o.0 ≡ ok result
    pub allowed_iff : (result.allowed ≡ true) ↔ (IsApproved × ((sid : String) × (answer ≡ ok sid)))
    pub sid_iff : (sid : String) → (result.sid ≡ some sid) ↔ (IsApproved × (answer ≡ ok sid))
    pub sent :
        IsApproved
        → o.1 ≡ record s { job_calls = s.job_calls ++ dispatched verdict.executable_query ∷ [] }
    pub unsent : ¬ IsApproved → o.1 ≡ s
    pub why_rejected : ¬ IsApproved → result.reason ≡ some (rejected verdict.reason)
    pub why_failed :
        IsApproved → (e : Error) → answer ≡ err e → result.reason ≡ some dispatch_failed

  IsGuarded-rejected :
      verdict.allowed ≡ false → IsGuarded (ok (refused (rejected verdict.reason)), s)
  IsGuarded-rejected h = record {
    result = refused (rejected verdict.reason);
    returned = refl;
    allowed_iff = (λ e. cc, λ (a, _). cc (approved_iff.1 a, h));
    sid_iff = λ sid. (λ e. cc, λ (a, _). cc (approved_iff.1 a, h));
    sent = λ a. absurd (cc (approved_iff.1 a, h));
    unsent = λ _. refl;
    why_rejected = λ _. refl;
    why_failed = λ a. absurd (cc (approved_iff.1 a, h));
  }

  IsGuarded-sent :
      (a : Result String)
      → answer ≡ a
      → verdict.allowed ≡ true
      → IsGuarded (
        ok (dispatch_reply verdict.executable_query a),
        record s { job_calls = s.job_calls ++ dispatched verdict.executable_query ∷ [] },
      )
  IsGuarded-sent (ok sid) e h = record {
    result = dispatch_reply verdict.executable_query (ok sid);
    returned = refl;
    allowed_iff = (λ _. (approved_iff.0 h, (sid, e)), λ _. refl);
    sid_iff = λ other. (λ k. (approved_iff.0 h, cc), λ (_, k). cc);
    sent = λ _. refl;
    unsent = λ no. absurd (no (approved_iff.0 h));
    why_rejected = λ no. absurd (no (approved_iff.0 h));
    why_failed = λ _ x k. cc;
  }
  IsGuarded-sent (err x) e h = record {
    result = dispatch_reply verdict.executable_query (err x);
    returned = refl;
    allowed_iff = (λ k. cc, λ (_, (sid, k)). cc);
    sid_iff = λ other. (λ k. cc, λ (_, k). cc);
    sent = λ _. refl;
    unsent = λ no. absurd (no (approved_iff.0 h));
    why_rejected = λ no. absurd (no (approved_iff.0 h));
    why_failed = λ _ _ _. refl;
  }

  -- A dispatch always returns. Its result is allowed exactly if the text is approved, that is not
  -- blank, parsed and safe, and the search head answered with a job; the result carries a job exactly
  -- then, and it is the one answered. The search head gets one call, with the executable form of the
  -- text, if the text is approved, and none if it is not; nothing else changes. The reason of a text
  -- that is not approved is the validator's, and a client that raised is named as such.
  pub dispatch_lem : IsGuarded (dispatch x q is_admin s)
  unfolding dispatch
  dispatch_lem = elim (Bool-cases verdict.allowed) [
    | inl allowed ↦ rw allowed (IsGuarded-sent answer refl allowed)
    | inr not_allowed ↦ rw not_allowed (IsGuarded-rejected not_allowed)
  ]
