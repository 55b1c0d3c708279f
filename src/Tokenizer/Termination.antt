-- ===== src/Tokenizer/Termination.antt =====
-- The outer loop and its calls on subsearches end: what they do as a relation without fuel.
use app_datasource_validator.Prelude.{
  ℕ, zero, suc, ◌<◌, ◌≤◌, ◌≡◌, refl, ap, ◌≢◌, inl, inr, Bool, true, false, Option, none, some, List,
  [], ◌∷◌, ◌++◌, eqb, length, length-append, arith, Bool-cases, if◌then◌else◌,
}
use app_datasource_validator.Text.{Text}
use app_datasource_validator.Tokenizer.{
  Inner, read, is_quote, scan_subsearch, after_call, after_inner, on_kind, round, Kind, kind_of,
  quote_mark, opening, closing, bar, other, finish_with, Tokens, tokens, unbalanced_open,
  unbalanced_close, unterminated_quote, out_of_fuel, Scan, start, push, end_segment, add_subsearch,
  finish, in_quotes, scan, split_top_level,
}

abbrev Whole : Text → Inner → Type 0
Whole t none = Unit
Whole t (some (inner, rest)) = t ≡ inner ++ b']' ∷ rest

-- A subsearch that is read is the text up to its bracket.
pub record Splits (t : Text) (r : Inner) : Type 0 where
  pub whole : Whole t r

read-Splits : (c : ℕ) {t : Text} (r : Inner) → Splits t r → Splits (c ∷ t) (read (c ∷ []) r)
read-Splits c none h = record { whole = tt }
read-Splits c (some p) h = record { whole = ap (λ u. c ∷ u) h.whole }

escaped-Splits :
    (c d : ℕ) {t : Text} (r : Inner) → Splits t r → Splits (c ∷ d ∷ t) (read (c ∷ d ∷ []) r)
escaped-Splits c d none h = record { whole = tt }
escaped-Splits c d (some p) h = record { whole = ap (λ u. c ∷ d ∷ u) h.whole }

Splits-branch :
    (b : Bool) {t : Text} {x y : Inner} → Splits t x → Splits t y → Splits t (if b then x else y)
Splits-branch true hx hy = hx
Splits-branch false hx hy = hy

bracket-Splits :
    (c : ℕ) {t : Text} {y : Inner}
    → Splits (c ∷ t) y
    → Splits (c ∷ t) (if eqb c b']' then some ([], t) else y)
bracket-Splits c h = elim (Bool-cases (eqb c b']')) [
  | inl e ↦ rw e (record { whole = ground (arith, e) })
  | inr e ↦ rw e h
]

pub scan_subsearch-Splits :
    (q : Option ℕ) (depth : ℕ) (t : Text) → Splits t (scan_subsearch q depth t)
unfolding scan_subsearch
scan_subsearch-Splits q depth [] = record { whole = tt }
scan_subsearch-Splits (some q) depth (c ∷ []) =
    read-Splits c _ (scan_subsearch-Splits (if eqb c q then none else some q) depth [])
scan_subsearch-Splits (some q) depth (c ∷ d ∷ t) =
    Splits-branch (eqb c b'\\') (escaped-Splits c d _ (scan_subsearch-Splits (some q) depth t))
      (read-Splits c _ (scan_subsearch-Splits (if eqb c q then none else some q) depth (d ∷ t)))
scan_subsearch-Splits none zero (c ∷ t) =
    Splits-branch (is_quote c) (read-Splits c _ (scan_subsearch-Splits (some c) zero t)) (
      Splits-branch (eqb c b'[') (read-Splits c _ (scan_subsearch-Splits none 1 t))
        (bracket-Splits c (read-Splits c _ (scan_subsearch-Splits none zero t))))
scan_subsearch-Splits none (suc depth) (c ∷ t) =
    Splits-branch (is_quote c) (read-Splits c _ (scan_subsearch-Splits (some c) (suc depth) t)) (
      Splits-branch (eqb c b'[') (read-Splits c _ (scan_subsearch-Splits none (suc (suc depth)) t))
        (Splits-branch (eqb c b']') (read-Splits c _ (scan_subsearch-Splits none depth t))
          (read-Splits c _ (scan_subsearch-Splits none (suc depth) t))))

-- Both parts of a text with a subsearch at its head are shorter than it.
pub subsearch_shorter :
    (t inner rest : Text)
    → scan_subsearch none zero t ≡ some (inner, rest)
    → (t ≡ inner ++ b']' ∷ rest) × (length inner < length t) × (length rest < length t)
subsearch_shorter t inner rest e =
    let w : t ≡ inner ++ b']' ∷ rest = (rw e at (scan_subsearch-Splits none zero t)).whole in
    (
      w,
      rw w (omega (arith, length-append inner (b']' ∷ rest))),
      rw w (omega (arith, length-append inner (b']' ∷ rest))),
    )

-- The answers of the loop that are errors.
abbrev pub is_error : Tokens → Bool
is_error (tokens segs deeper) = false
is_error error = true

in_quotes-shorter : (q c : ℕ) (t : Text) (s : Scan) → length (in_quotes q c t s).1 ≤ length t
in_quotes-shorter q c [] s = omega arith
in_quotes-shorter q c (d ∷ t) s = ground arith

module _ (lower : Text → Text) where
  -- What the loop does, with no count of rounds: `Scans s text r` where it ends with `r`.
  pub data Scans : Scan → Text → Tokens → Type 0 where
    ends : {s : Scan} → Scans s [] (finish s)
    quoted :
        {s : Scan} {q c : ℕ} {t : Text} {r : Tokens}
        → s.quote ≡ some q
        → Scans (in_quotes q c t s).0 (in_quotes q c t s).1 r
        → Scans s (c ∷ t) r
    opens_quote :
        {s : Scan} {c : ℕ} {t : Text} {r : Tokens}
        → s.quote ≡ none
        → kind_of c ≡ quote_mark
        → Scans (push (c ∷ []) (some c) s) t r
        → Scans s (c ∷ t) r
    not_closed :
        {s : Scan} {c : ℕ} {t : Text}
        → s.quote ≡ none
        → kind_of c ≡ opening
        → scan_subsearch none zero t ≡ none
        → Scans s (c ∷ t) unbalanced_open
    subsearch :
        {s : Scan} {c : ℕ} {t inner rest : Text} {segs deeper : List Text} {r : Tokens}
        → s.quote ≡ none
        → kind_of c ≡ opening
        → scan_subsearch none zero t ≡ some (inner, rest)
        → Scans start inner (tokens segs deeper)
        → Scans (add_subsearch lower segs deeper inner s) rest r
        → Scans s (c ∷ t) r
    bad_subsearch :
        {s : Scan} {c : ℕ} {t inner rest : Text} {e : Tokens}
        → s.quote ≡ none
        → kind_of c ≡ opening
        → scan_subsearch none zero t ≡ some (inner, rest)
        → is_error e ≡ true
        → Scans start inner e
        → Scans s (c ∷ t) e
    not_open :
        {s : Scan} {c : ℕ} {t : Text}
        → s.quote ≡ none
        → kind_of c ≡ closing
        → Scans s (c ∷ t) unbalanced_close
    ends_segment :
        {s : Scan} {c : ℕ} {t : Text} {r : Tokens}
        → s.quote ≡ none
        → kind_of c ≡ bar
        → Scans (end_segment s) t r
        → Scans s (c ∷ t) r
    plain :
        {s : Scan} {c : ℕ} {t : Text} {r : Tokens}
        → s.quote ≡ none
        → kind_of c ≡ other
        → Scans (push (c ∷ []) none s) t r
        → Scans s (c ∷ t) r

  -- If the calls on texts of at most `n` characters do what the relation says, so do the branches.
  module _ (n : ℕ) (next : Scan → Text → Tokens)
      (calls : (s : Scan) (t : Text) → length t ≤ n → Scans s t (next s t)) where
    after_call-Scans :
        (s : Scan) (c : ℕ) (t inner rest : Text) (answer : Tokens)
        → s.quote ≡ none
        → kind_of c ≡ opening
        → scan_subsearch none zero t ≡ some (inner, rest)
        → length rest ≤ n
        → Scans start inner answer
        → Scans s (c ∷ t) (after_call lower next s inner rest answer)
    after_call-Scans s c t inner rest (tokens segs deeper) e k i short sub =
        subsearch e k i sub (calls _ rest short)
    after_call-Scans s c t inner rest unbalanced_open e k i short sub = bad_subsearch e k i refl sub
    after_call-Scans s c t inner rest unbalanced_close e k i short sub =
        bad_subsearch e k i refl sub
    after_call-Scans s c t inner rest unterminated_quote e k i short sub =
        bad_subsearch e k i refl sub
    after_call-Scans s c t inner rest out_of_fuel e k i short sub = bad_subsearch e k i refl sub

    after_inner-Scans :
        (s : Scan) (c : ℕ) (t : Text) (i : Inner)
        → s.quote ≡ none
        → kind_of c ≡ opening
        → scan_subsearch none zero t ≡ i
        → length t ≤ n
        → Scans s (c ∷ t) (after_inner lower next s i)
    after_inner-Scans s c t none e k i short = not_closed e k i
    after_inner-Scans s c t (some (inner, rest)) e k i short =
        let (_, a, b) = subsearch_shorter t inner rest i in
        after_call-Scans s c t inner rest (next start inner) e k i (omega (arith, b, short))
          (calls start inner (omega (arith, a, short)))

    on_kind-Scans :
        (kind : Kind) (c : ℕ) (s : Scan) (t : Text)
        → s.quote ≡ none
        → kind_of c ≡ kind
        → length t ≤ n
        → Scans s (c ∷ t) (on_kind lower next kind c s t)
    on_kind-Scans quote_mark c s t e k short = opens_quote e k (calls _ t short)
    on_kind-Scans opening c s t e k short = after_inner-Scans s c t _ e k refl short
    on_kind-Scans closing c s t e k short = not_open e k
    on_kind-Scans bar c s t e k short = ends_segment e k (calls _ t short)
    on_kind-Scans other c s t e k short = plain e k (calls _ t short)

    round-Scans :
        (q : Option ℕ) (c : ℕ) (s : Scan) (t : Text)
        → s.quote ≡ q
        → length t ≤ n
        → Scans s (c ∷ t) (round lower next q c s t)
    round-Scans none c s t e short = on_kind-Scans (kind_of c) c s t e refl short
    round-Scans (some q) c s t e short =
        quoted e (calls _ _ (omega (arith, in_quotes-shorter q c t s, short)))

  -- Where the rounds are more than the characters, the loop ends.
  pub scan-Scans :
      (fuel : ℕ) (s : Scan) (text : Text)
      → length text < fuel
      → Scans s text (scan lower fuel s text)
  unfolding scan
  scan-Scans zero s text h = elim h [ ]
  scan-Scans (suc fuel) s [] h = ends
  scan-Scans (suc zero) s (c ∷ t) h = absurd (omega (arith, h))
  scan-Scans (suc (suc fuel)) s (c ∷ t) h =
      round-Scans fuel (scan lower (suc fuel))
        (λ u v short. scan-Scans (suc fuel) u v (omega (arith, short))) s.quote c s t refl
        (omega (arith, h))

  -- The relation never ends without an answer.
  Scans-answers : {s : Scan} {t : Text} {r : Tokens} → Scans s t r → r ≢ out_of_fuel
  Scans-answers (ends {s}) e = finish_answers s.quote s e
    where
      finish_answers : (q : Option ℕ) (s : Scan) → finish_with q s ≡ out_of_fuel → ⊥
      finish_answers none s e = cc
      finish_answers (some q) s e = cc
  Scans-answers (quoted _ d) e = Scans-answers d e
  Scans-answers (opens_quote _ _ d) e = Scans-answers d e
  Scans-answers (not_closed _ _ _) e = cc
  Scans-answers (subsearch _ _ _ _ d) e = Scans-answers d e
  Scans-answers (bad_subsearch _ _ _ _ d) e = Scans-answers d e
  Scans-answers (not_open _ _) e = cc
  Scans-answers (ends_segment _ _ d) e = Scans-answers d e
  Scans-answers (plain _ _ d) e = Scans-answers d e

  -- Splitting a text always ends: the answer is the two lists or one of the three errors, and it is
  -- what the loop does without a count of rounds.
  pub split_top_level-Scans :
      (text : Text)
      → (split_top_level lower text ≢ out_of_fuel) × Scans start text (split_top_level lower text)
  unfolding split_top_level
  split_top_level-Scans text =
      let d = scan-Scans (suc (length text)) start text (omega arith) in (Scans-answers d, d)
