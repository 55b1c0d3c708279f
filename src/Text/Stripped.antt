-- ===== src/Text/Stripped.antt =====
-- When `strip`, `partition` and the tests on the ends of a text leave what was put together as it is.
use app_datasource_validator.Prelude.{
  ℕ, ◌≡◌, refl, ap, Bool, true, false, [], ◌∷◌, ◌++◌, eqb, is_nil, arith,
}
use app_datasource_validator.Text.{Text, is_space, lstrip_of, rstrip_of, strip}
use app_datasource_validator.Text.Search.{has_char, before, after, drop_last, ends_in}

-- No blank at the end.
abbrev pub EndsWell : Text → Type 0
EndsWell t = rstrip_of is_space t ≡ t

module _ (p : ℕ → Bool) where
  is_nil-append : (s : Text) (c : ℕ) (t : Text) → is_nil (s ++ c ∷ t) ≡ false
  is_nil-append [] c t = refl
  is_nil-append (d ∷ s) c t = refl

  rstrip_of-append :
      (s : Text) (c : ℕ) (t : Text)
      → rstrip_of p (c ∷ t) ≡ c ∷ t
      → rstrip_of p (s ++ c ∷ t) ≡ s ++ c ∷ t
  rstrip_of-append [] c t e = e
  rstrip_of-append (d ∷ s) c t e = rw (rstrip_of-append s c t e, is_nil-append s c t) (ground arith)

  rstrip_of-cons :
      (c : ℕ) (t : Text) → p c ≡ false → rstrip_of p t ≡ t → rstrip_of p (c ∷ t) ≡ c ∷ t
  rstrip_of-cons c t h e = ground arith

-- A text whose first and last characters are no blanks is its own strip.
pub strip-closed :
    (c : ℕ) (s : Text) (d : ℕ) (t : Text)
    → is_space c ≡ false
    → is_space d ≡ false
    → EndsWell t
    → strip (c ∷ s ++ d ∷ t) ≡ c ∷ s ++ d ∷ t
unfolding strip
strip-closed c s d t first last e =
    rw first (rstrip_of-append is_space (c ∷ s) d t (rstrip_of-cons is_space d t last e))

pub strip-stripped : (t : Text) → lstrip_of is_space t ≡ t → EndsWell t → strip t ≡ t
unfolding strip
strip-stripped t l r = rw l r

pub has_char-middle : (c : ℕ) (s t : Text) → has_char c (s ++ c ∷ t) ≡ true
has_char-middle c [] t = ground arith
has_char-middle c (d ∷ s) t = ground (arith, has_char-middle c s t)

pub before-middle : (c : ℕ) (s t : Text) → has_char c s ≡ false → before c (s ++ c ∷ t) ≡ s
before-middle c [] t h = ground arith
before-middle c (d ∷ s) t h = ground (arith, before-middle c s t)

pub after-middle : (c : ℕ) (s t : Text) → has_char c s ≡ false → after c (s ++ c ∷ t) ≡ t
after-middle c [] t h = ground arith
after-middle c (d ∷ s) t h = ground (arith, after-middle c s t)

pub ends_in-last : (c d : ℕ) (s : Text) → ends_in c (s ++ d ∷ []) ≡ eqb c d
ends_in-last c d [] = refl
ends_in-last c d (x ∷ []) = refl
ends_in-last c d (x ∷ y ∷ s) = ends_in-last c d (y ∷ s)

pub drop_last-last : (d : ℕ) (s : Text) → drop_last (s ++ d ∷ []) ≡ s
drop_last-last d [] = refl
drop_last-last d (x ∷ []) = refl
drop_last-last d (x ∷ y ∷ s) = ap (λ (t : Text). x ∷ t) (drop_last-last d (y ∷ s))
