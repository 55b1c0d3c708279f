-- ===== src/Tokenizer/Segments.antt =====
-- The segments are the text, cut at its top-level bars.
use app_datasource_validator.Prelude.{
  ℕ, ◌≡◌, refl, ap, sym, ◌∙◌, inl, inr, subst, Bool-cases, true, false, Option, none, some, List,
  [], ◌∷◌, ◌++◌, append_assoc, append-nil, eqb, arith,
}
use app_datasource_validator.Text.{Text}
use app_datasource_validator.Tokenizer.{
  kind_of, bar, opening, Tokens, tokens, unbalanced_open, unbalanced_close, unterminated_quote,
  out_of_fuel, Scan, finish_with, in_quotes, split_top_level,
}
use app_datasource_validator.Tokenizer.Termination.{
  Scans, ends, quoted, opens_quote, not_closed, subsearch, bad_subsearch, not_open, ends_segment,
  plain, subsearch_shorter, split_top_level-Scans, is_error,
}

-- `"|".join(segments)`
abbrev pub join_bars : List Text → Text
join_bars [] = []
join_bars (seg ∷ []) = seg
join_bars (seg ∷ next ∷ segs) = seg ++ b'|' ∷ join_bars (next ∷ segs)

-- The text that the segments so far, the current one and the rest of the text make.
abbrev whole : Scan → Text → Text
whole s t = join_bars (s.segments ++ (s.current ++ t) ∷ [])

join-bar :
    (segs : List Text) (u t : Text)
    → join_bars ((segs ++ u ∷ []) ++ t ∷ []) ≡ join_bars (segs ++ (u ++ b'|' ∷ t) ∷ [])
join-bar [] u t = refl
join-bar (seg ∷ []) u t = refl
join-bar (seg ∷ next ∷ segs) u t = ap (λ v. seg ++ b'|' ∷ v) (join-bar (next ∷ segs) u t)

-- What is read goes from the rest of the text to the current segment.
whole-moved :
    (s : Scan) (cs t : Text)
    → join_bars (s.segments ++ ((s.current ++ cs) ++ t) ∷ []) ≡ whole s (cs ++ t)
whole-moved s cs t = ap (λ v. join_bars (s.segments ++ v ∷ [])) (append_assoc s.current cs t)

-- Each kind of character is that character.
opening-is : (c : ℕ) → kind_of c ≡ opening → c ≡ b'['
opening-is c e = ground (arith, e)

bar-is : (c : ℕ) → kind_of c ≡ bar → c ≡ b'|'
bar-is c e = ground (arith, e)

quoted-whole :
    (q c : ℕ) (t : Text) (s : Scan)
    → whole (in_quotes q c t s).0 (in_quotes q c t s).1 ≡ whole s (c ∷ t)
quoted-whole q c [] s = whole-moved s (c ∷ []) []
quoted-whole q c (d ∷ t) s = elim (Bool-cases (eqb c b'\\')) [
  | inl e ↦ rw e (whole-moved s (c ∷ d ∷ []) t)
  | inr e ↦ rw e (whole-moved s (c ∷ []) (d ∷ t))
]

subsearch-whole :
    (s : Scan) (c : ℕ) (t inner rest : Text)
    → c ≡ b'['
    → t ≡ inner ++ b']' ∷ rest
    → join_bars (s.segments ++ ((s.current ++ b'[' ∷ (inner ++ b']' ∷ [])) ++ rest) ∷ [])
      ≡ whole s (c ∷ t)
subsearch-whole s c t inner rest k w =
    rw (k, w)
      (whole-moved s (b'[' ∷ (inner ++ b']' ∷ [])) rest
        ∙ ap (λ v. whole s (b'[' ∷ v)) (append_assoc inner (b']' ∷ []) rest))

bar-whole :
    (s : Scan) (c : ℕ) (t : Text)
    → c ≡ b'|'
    → join_bars ((s.segments ++ s.current ∷ []) ++ t ∷ []) ≡ whole s (c ∷ t)
bar-whole s c t k = rw k (join-bar s.segments s.current t)

-- The segments of an answer, joined.
abbrev Joined : Tokens → Text → Type 0
Joined (tokens segs deeper) t = join_bars segs ≡ t
Joined error t = Unit

Joined-of_error : (r : Tokens) (t : Text) → is_error r ≡ true → Joined r t
Joined-of_error (tokens segs deeper) t h = absurd (no h)
  where
    no : false ≡ true → ⊥
    no e = cc
Joined-of_error unbalanced_open t h = tt
Joined-of_error unbalanced_close t h = tt
Joined-of_error unterminated_quote t h = tt
Joined-of_error out_of_fuel t h = tt

module _ (lower : Text → Text) where
  Joined-of : {s : Scan} {t : Text} {r : Tokens} → Scans lower s t r → Joined r (whole s t)
  Joined-of (ends {s}) = finished s.quote s
    where
      finished : (q : Option ℕ) (s : Scan) → Joined (finish_with q s) (whole s [])
      finished none s = ap (λ v. join_bars (s.segments ++ v ∷ [])) (sym (append-nil s.current))
      finished (some q) s = tt
  Joined-of (quoted {s} {q} {c} {t} {r} _ d) = subst (Joined r) (quoted-whole q c t s) (Joined-of d)
  Joined-of (opens_quote {s} {c} {t} {r} _ _ d) =
      subst (Joined r) (whole-moved s (c ∷ []) t) (Joined-of d)
  Joined-of (not_closed _ _ _) = tt
  Joined-of (subsearch {s} {c} {t} {inner} {rest} {r = r} _ k i _ d) =
      subst (Joined r)
        (subsearch-whole s c t inner rest (opening-is c k) (subsearch_shorter t inner rest i).0)
        (Joined-of d)
  Joined-of (bad_subsearch {e = e} _ _ _ err _) = Joined-of_error e _ err
  Joined-of (not_open _ _) = tt
  Joined-of (ends_segment {s} {c} {t} {r} _ k d) =
      subst (Joined r) (bar-whole s c t (bar-is c k)) (Joined-of d)
  Joined-of (plain {s} {c} {t} {r} _ _ d) =
      subst (Joined r) (whole-moved s (c ∷ []) t) (Joined-of d)

  -- Where the text is split, its segments joined by bars are the text: the splitting loses and moves
  -- no character, those of quoted strings and of subsearches included.
  pub join_bars-split :
      (text : Text) (segs deeper : List Text)
      → split_top_level lower text ≡ tokens segs deeper
      → join_bars segs ≡ text
  join_bars-split text segs deeper e =
      subst (λ r. Joined r text) e (Joined-of (split_top_level-Scans lower text).1)
