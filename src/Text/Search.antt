-- ===== src/Text/Search.antt =====
-- The methods of `str` that look for parts of a text: `startswith`, `endswith`, `in`, `partition` and
-- `split` at a character.
use app_datasource_validator.Prelude.{
  ℕ, Bool, true, false, ◌&&◌, ◌||◌, List, [], ◌∷◌, eqb, if◌then◌else◌,
}
use app_datasource_validator.Text.{Text}

-- `t.startswith(p)`
unfoldable pub starts_with : Text → Text → Bool
starts_with [] t = true
starts_with (c ∷ p) [] = false
starts_with (c ∷ p) (d ∷ t) = eqb c d && starts_with p t

-- `t.startswith(c)`, for a single character
abbrev pub starts_in : ℕ → Text → Bool
starts_in c [] = false
starts_in c (d ∷ t) = eqb c d

-- `t.endswith(c)`, for a single character
abbrev pub ends_in : ℕ → Text → Bool
ends_in c [] = false
ends_in c (d ∷ []) = eqb c d
ends_in c (d ∷ e ∷ t) = ends_in c (e ∷ t)

-- `p in t`
unfoldable pub contains : Text → Text → Bool
unfolding starts_with
contains p [] = starts_with p []
contains p (c ∷ t) = starts_with p (c ∷ t) || contains p t

-- `c in t`, for a single character
abbrev pub has_char : ℕ → Text → Bool
has_char c [] = false
has_char c (d ∷ t) = eqb c d || has_char c t

-- `t[1:]`, `t[n:]` and `t[:-1]`
abbrev pub drop_first : Text → Text
drop_first [] = []
drop_first (c ∷ t) = t

abbrev pub drop_prefix : Text → Text → Text
drop_prefix [] t = t
drop_prefix (c ∷ p) t = drop_prefix p (drop_first t)

abbrev pub drop_last : Text → Text
drop_last [] = []
drop_last (c ∷ []) = []
drop_last (c ∷ d ∷ t) = c ∷ drop_last (d ∷ t)

-- What `t.partition(c)` gives before and behind the first `c`; without one, the text and nothing.
abbrev pub before : ℕ → Text → Text
before c [] = []
before c (d ∷ t) = let rest = before c t in if eqb c d then [] else d ∷ rest

abbrev pub after : ℕ → Text → Text
after c [] = []
after c (d ∷ t) = let rest = after c t in if eqb c d then t else rest

-- `t.split(c)`, which gives at least one text: the first, and those behind it.
abbrev pub split_parts : ℕ → Text → Text × List Text
split_parts c [] = ([], [])
split_parts c (d ∷ t) =
    let (first, others) = split_parts c t in
    if eqb c d then ([], first ∷ others) else (d ∷ first, others)

abbrev pub split_on : ℕ → Text → List Text
split_on c t = let (first, others) = split_parts c t in first ∷ others
