-- ===== src/Security/Identifiers.antt =====
-- Which texts are identifiers.
use app_datasource_validator.Prelude.{
  ℕ, zero, suc, ◌≤◌, ◌≡◌, refl, ap, ◌↔◌, ◌⊎◌, inl, inr, Bool, true, false, some, [], ◌∷◌, ◌++◌, ltb,
  any, All, length, arith, Bool-cases, if◌then◌else◌,
}
use app_datasource_validator.Text.{Text}
use app_datasource_validator.Exec.{validation_error, Result, ok, err}
use app_datasource_validator.Security.{
  is_control, is_alnum, is_body, at_end, matches_body, matches_identifier, validate_identifier,
}

-- A text, or the text with one newline behind it.
abbrev pub UpToNewline : Text → Text → Type 0
UpToNewline v t = (v ≡ t) ⊎ (v ≡ t ++ 10 ∷ [])

at_end-newline : (v : Text) → at_end v ≡ true → UpToNewline v []
unfolding at_end
at_end-newline [] h = inl refl
at_end-newline (c ∷ []) h = inr (ground (arith, h))
at_end-newline (c ∷ d ∷ t) h = inl (ground (arith, h))

module _ (p : ℕ → Bool) where
  abbrev Body : ℕ → Text → Type 0
  Body n v = (t : Text) × UpToNewline v t × All (λ c. p c ≡ true) t × (length t ≤ n)

  longer : (n c : ℕ) (v : Text) → p c ≡ true → Body n v → Body (suc n) (c ∷ v)
  longer n c v h (t, inl e, ps, short) = (c ∷ t, inl (rw e refl), (h, ps), omega (arith, short))
  longer n c v h (t, inr e, ps, short) = (c ∷ t, inr (rw e refl), (h, ps), omega (arith, short))

  only_newline : (n : ℕ) (v : Text) → at_end v ≡ true → Body n v
  only_newline n v h = ([], at_end-newline v h, tt, omega arith)

  matches_body-Body : (n : ℕ) (v : Text) → matches_body p n v ≡ true → Body n v
  unfolding matches_body
  matches_body-Body n [] h = ([], inl refl, tt, omega arith)
  matches_body-Body zero (c ∷ v) h = only_newline zero (c ∷ v) h
  matches_body-Body (suc n) (c ∷ v) h = elim (Bool-cases (p c)) [
    | inl fits ↦ longer n c v fits (matches_body-Body n v (rw fits at h))
    | inr other ↦ only_newline (suc n) (c ∷ v) (rw other at h)
  ]

-- An identifier: a letter or digit, then at most `n` characters of the body; one newline may follow.
pub record IsIdentifier (allow_at : Bool) (n : ℕ) (v : Text) : Type 0 where
  pub first : ℕ
  pub body : Text
  pub whole : UpToNewline v (first ∷ body)
  pub starts : is_alnum first ≡ true
  pub fits : All (λ c. is_body allow_at c ≡ true) body
  pub short : length body ≤ n

abbrev pub body_bound : Bool → ℕ
body_bound allow_at = if allow_at then 253 else 127

matches-IsIdentifier :
    (allow_at : Bool) (v : Text)
    → matches_identifier allow_at v ≡ true
    → IsIdentifier allow_at (body_bound allow_at) v
unfolding matches_identifier
matches-IsIdentifier allow_at [] h = cc
matches-IsIdentifier allow_at (c ∷ t) h =
    let start : is_alnum c ≡ true = ground (arith, h) in
    let (b, w, f, s) =
      matches_body-Body (is_body allow_at) (body_bound allow_at) t (ground (arith, h)) in
    record {
      first = c;
      body = b;
      whole = elim w [ inl e ↦ inl (ap (λ u. c ∷ u) e) | inr e ↦ inr (ap (λ u. c ∷ u) e) ];
      starts = start;
      fits = f;
      short = s;
    }

module _ (p : ℕ → Bool) where
  newline-matches : (n : ℕ) → matches_body p n (10 ∷ []) ≡ true
  unfolding matches_body
  newline-matches zero = refl
  newline-matches (suc n) = ground arith

  body-matches :
      (n : ℕ) (t : Text) → All (λ c. p c ≡ true) t → length t ≤ n → matches_body p n t ≡ true
  unfolding matches_body
  body-matches n [] h short = refl
  body-matches zero (c ∷ t) h short = ground (arith, short)
  body-matches (suc n) (c ∷ t) h short =
      ground (arith, h.0, body-matches n t h.1 (omega (arith, short)))

  line-matches :
      (n : ℕ) (t : Text)
      → All (λ c. p c ≡ true) t
      → length t ≤ n
      → matches_body p n (t ++ 10 ∷ []) ≡ true
  unfolding matches_body
  line-matches n [] h short = newline-matches n
  line-matches zero (c ∷ t) h short = ground (arith, short)
  line-matches (suc n) (c ∷ t) h short =
      ground (arith, h.0, line-matches n t h.1 (omega (arith, short)))

printable :
    (allow_at : Bool) (t : Text)
    → All (λ c. is_body allow_at c ≡ true) t
    → (any is_control t ≡ false) × (any is_control (t ++ 10 ∷ []) ≡ false)
unfolding is_control is_body
printable allow_at [] h = (refl, refl)
printable allow_at (c ∷ t) h =
    let (a, b) = printable allow_at t h.1 in (ground (arith, h.0, a), ground (arith, h.0, b))

module _ (allow_at : Bool) (max_length : ℕ) where
  accepted-IsIdentifier :
      (v : Text)
      → validate_identifier (some v) max_length allow_at ≡ ok v
      → IsIdentifier allow_at (body_bound allow_at) v × (length v ≤ max_length)
  unfolding validate_identifier
  accepted-IsIdentifier [] h = cc
  accepted-IsIdentifier (c ∷ t) h = elim (Bool-cases (ltb max_length (length (c ∷ t)))) [
    | inl long ↦ absurd (no (rw long at h))
    | inr short ↦ elim (Bool-cases (any is_control (c ∷ t))) [
      | inl bad ↦ absurd (no (rw (short, bad) at h))
      | inr clean ↦ elim (Bool-cases (matches_identifier allow_at (c ∷ t))) [
        | inl fits ↦ (matches-IsIdentifier allow_at (c ∷ t) fits, ground (arith, short))
        | inr other ↦ absurd (no (rw (short, clean, other) at h))
      ]
    ]
  ]
    where
      no : ◌≡◌ {A = Result Text} (err validation_error) (ok (c ∷ t)) → ⊥
      no e = cc

  identifier-accepted :
      (v : Text)
      → IsIdentifier allow_at (body_bound allow_at) v
      → length v ≤ max_length
      → validate_identifier (some v) max_length allow_at ≡ ok v
  unfolding validate_identifier is_control is_alnum
  identifier-accepted v i short = elim i.whole [
    | inl e ↦
        let (clean, _) = printable allow_at i.body i.fits in
        let fits = body-matches (is_body allow_at) (body_bound allow_at) i.body i.fits i.short in
        rw e (ground (arith, rw e at short, i.starts, clean, fits))
    | inr e ↦
        let (_, clean) = printable allow_at i.body i.fits in
        let fits = line-matches (is_body allow_at) (body_bound allow_at) i.body i.fits i.short in
        rw e (ground (arith, rw e at short, i.starts, clean, fits))
  ]

  -- A text is accepted exactly when it has at most `max_length` characters and is an identifier: a
  -- letter or digit, then at most 127 letters, digits, underscores and dashes (for a username, at
  -- most 253 of these, dots and at signs), and behind them nothing or one newline.
  pub IsIdentifier-accepted_iff :
      (v : Text)
      → (validate_identifier (some v) max_length allow_at ≡ ok v)
        ↔ (IsIdentifier allow_at (body_bound allow_at) v × (length v ≤ max_length))
  IsIdentifier-accepted_iff v = (accepted-IsIdentifier v, λ h. identifier-accepted v h.0 h.1)
