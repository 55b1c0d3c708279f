-- ===== src/Text.antt =====
-- Python's `str` as a list of code points, with the methods that the program calls.
-- `str.lower` beyond ASCII depends on Unicode's tables, so where it is called it is a parameter.
pub mod Equality
pub mod Search
pub mod Stripped
use Prim.Native.Char.{code}
use app_datasource_validator.Prelude.{
  ℕ, ◌+◌, String, Bool, true, false, ◌&&◌, ◌||◌, List, [], ◌∷◌, ltb, leb, eqb, is_nil,
  if◌then◌else◌,
}

abbrev pub Text : Type 0
Text = List ℕ

abbrev pub codes : String → Text
codes String.[] = []
codes (String.◌∷◌ c s) = code c ∷ codes s

-- The code points that `str.isspace` accepts.
unfoldable pub is_space : ℕ → Bool
is_space c =
    leb 9 c && leb c 13
    || leb 28 c && leb c 32
    || eqb c 133
    || eqb c 160
    || eqb c 5760
    || leb 8192 c && leb c 8202
    || eqb c 8232
    || eqb c 8233
    || eqb c 8239
    || eqb c 8287
    || eqb c 12288

module _ (p : ℕ → Bool) where
  abbrev pub lstrip_of : Text → Text
  lstrip_of [] = []
  lstrip_of (c ∷ s) = let rest = lstrip_of s in if p c then rest else c ∷ s

  abbrev pub rstrip_of : Text → Text
  rstrip_of [] = []
  rstrip_of (c ∷ s) = let rest = rstrip_of s in if p c && is_nil rest then [] else c ∷ rest

unfoldable pub strip : Text → Text
unfolding is_space
strip s = rstrip_of is_space (lstrip_of is_space s)

-- Python's `==` on texts.
unfoldable pub text_eq : Text → Text → Bool
text_eq [] [] = true
text_eq [] (d ∷ t) = false
text_eq (c ∷ s) [] = false
text_eq (c ∷ s) (d ∷ t) = eqb c d && text_eq s t

-- Python's `<=` on texts: by code points, the shorter first.
unfoldable pub text_leb : Text → Text → Bool
text_leb [] t = true
text_leb (c ∷ s) [] = false
text_leb (c ∷ s) (d ∷ t) = ltb c d || eqb c d && text_leb s t

-- `c in xs`
unfoldable pub mem_text : Text → List Text → Bool
unfolding text_eq
mem_text c [] = false
mem_text c (x ∷ xs) = text_eq c x || mem_text c xs

-- `frozenset(xs)`: each text once.
unfoldable pub frozenset : List Text → List Text
unfolding mem_text
frozenset [] = []
frozenset (x ∷ xs) = let rest = frozenset xs in if mem_text x rest then rest else x ∷ rest

-- `str.lower` on ASCII letters.
unfoldable pub ascii_lower : Text → Text
ascii_lower [] = []
ascii_lower (c ∷ s) = (if leb 65 c && leb c 90 then c + 32 else c) ∷ ascii_lower s
