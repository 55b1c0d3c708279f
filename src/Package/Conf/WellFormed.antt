-- ===== src/Package/Conf/WellFormed.antt =====
-- What `parse_conf` gives: it ends, and every name is there once.
use app_datasource_validator.Prelude.{
  ℕ, zero, suc, ◌≤◌, ◌<◌, ◌≡◌, refl, ap, inl, inr, false, ◌||◌, Option, none, some, List, [], ◌∷◌,
  ◌++◌, map-append, length, All, arith, Bool-cases,
}
use app_datasource_validator.Text.{Text, text_eq, mem_text, strip}
use app_datasource_validator.Text.Equality.{text_eq→eq}
use app_datasource_validator.Text.Search.{ends_in, has_char, drop_first, drop_last, before, after}
use app_datasource_validator.Package.Conf.{
  Conf, names, keys, stanza, settings_of, put_setting, Reading, read, duplicate_stanza,
  neither_header_nor_pair, before_any_stanza, duplicate_key, out_of_fuel, continued, is_ignored,
  is_header, Loop, on_header, on_pair, on_line, parse_lines, parse_conf,
}

abbrev pub Distinct : List Text → Type 0
Distinct [] = Unit
Distinct (x ∷ xs) = (mem_text x xs ≡ false) × Distinct xs

-- No stanza stands twice, and no key stands twice in a stanza.
abbrev pub IsWellFormed : Conf → Type 0
IsWellFormed conf = Distinct (names conf) × All (λ s. Distinct (keys s.settings)) conf

pub text_eq_sym : (s t : Text) → text_eq s t ≡ text_eq t s
unfolding text_eq
text_eq_sym [] [] = refl
text_eq_sym [] (d ∷ t) = refl
text_eq_sym (c ∷ s) [] = refl
text_eq_sym (c ∷ s) (d ∷ t) = ground (arith, text_eq_sym s t)

pub mem_text-append :
    (y x : Text) (xs : List Text) → mem_text y (xs ++ x ∷ []) ≡ mem_text y xs || text_eq y x
unfolding mem_text
mem_text-append y x [] = ground arith
mem_text-append y x (z ∷ xs) = ground (arith, mem_text-append y x xs)

Distinct-append :
    (x : Text) (xs : List Text) → mem_text x xs ≡ false → Distinct xs → Distinct (xs ++ x ∷ [])
unfolding mem_text
Distinct-append x [] new d = (refl, tt)
Distinct-append x (y ∷ xs) new (fresh, d) =
    (ground (arith, mem_text-append y x xs, text_eq_sym x y), Distinct-append x xs (ground arith) d)

pub names-put_setting :
    (name key val : Text) (conf : Conf) → names (put_setting name key val conf) ≡ names conf
unfolding put_setting
names-put_setting name key val [] = refl
names-put_setting name key val (s ∷ conf) = elim (Bool-cases (text_eq name s.name)) [
  | inl here ↦ rw here (ap (λ (ns : List Text). s.name ∷ ns) (names-put_setting name key val conf))
  | inr not_here ↦
      rw not_here (ap (λ (ns : List Text). s.name ∷ ns) (names-put_setting name key val conf))
]

-- A stanza that is not there cannot be changed.
pub put_setting-absent :
    (name key val : Text) (conf : Conf)
    → mem_text name (names conf) ≡ false
    → put_setting name key val conf ≡ conf
unfolding put_setting mem_text
put_setting-absent name key val [] absent = refl
put_setting-absent name key val (s ∷ conf) absent =
    ground (arith, put_setting-absent name key val conf)

put_setting-Distinct :
    (name key val : Text) (conf : Conf)
    → Distinct (names conf)
    → mem_text key (keys (settings_of name conf)) ≡ false
    → All (λ s. Distinct (keys s.settings)) conf
    → All (λ s. Distinct (keys s.settings)) (put_setting name key val conf)
unfolding put_setting stanza
put_setting-Distinct name key val [] once new ds = tt
put_setting-Distinct name key val (s ∷ conf) (fresh, once) new (d, ds) =
    elim (Bool-cases (text_eq name s.name)) [
      | inl here ↦
          let same = text_eq→eq name s.name here in
          let kept = put_setting-absent name key val conf (rw same fresh) in
          let new_here : mem_text key (keys s.settings) ≡ false = rw here at new in
          rw (here, kept, map-append) (Distinct-append key (keys s.settings) new_here d, ds)
      | inr not_here ↦
          rw not_here (d, put_setting-Distinct name key val conf once (rw not_here at new) ds)
    ]

put_setting-IsWellFormed :
    (name key val : Text) (conf : Conf)
    → mem_text key (keys (settings_of name conf)) ≡ false
    → IsWellFormed conf
    → IsWellFormed (put_setting name key val conf)
put_setting-IsWellFormed name key val conf new (once, ds) =
    (rw names-put_setting once, put_setting-Distinct name key val conf once new ds)

add_stanza-IsWellFormed :
    (name : Text) (conf : Conf)
    → mem_text name (names conf) ≡ false
    → IsWellFormed conf
    → IsWellFormed (conf ++ record { name = name; settings = [] } ∷ [])
add_stanza-IsWellFormed name conf new (once, ds) =
    (rw map-append (Distinct-append name (names conf) new once), All-append conf ds)
  where
    All-append :
        (c : Conf)
        → All (λ s. Distinct (keys s.settings)) c
        → All (λ s. Distinct (keys s.settings)) (c ++ record { name = name; settings = [] } ∷ [])
    All-append [] h = (tt, tt)
    All-append (s ∷ c) (h, hs) = (h, All-append c hs)

-- What the loop may answer.
abbrev pub Outcome : Reading → Type 0
Outcome (read conf) = IsWellFormed conf
Outcome (duplicate_stanza name) = Unit
Outcome (neither_header_nor_pair line) = Unit
Outcome (before_any_stanza key) = Unit
Outcome (duplicate_key key name) = Unit
Outcome out_of_fuel = ⊥

continued-le : (val : Text) (lines : List Text) → length (continued val lines).1 ≤ length lines
unfolding continued
continued-le val [] = omega arith
continued-le val (line ∷ lines) = elim (Bool-cases (ends_in b'\\' val)) [
  | inl more ↦ rw more (omega (arith, continued-le (drop_last val ++ strip line) lines))
  | inr last ↦ rw last (omega arith)
]

module _ (n : ℕ) (go : Loop)
    (goes : (lines : List Text) (conf : Conf) (current : Option Text)
      → length lines < n
      → IsWellFormed conf
      → Outcome (go lines conf current)) where
  on_header-Outcome :
      (name : Text) (lines : List Text) (conf : Conf)
      → length lines < n
      → IsWellFormed conf
      → Outcome (on_header go name lines conf)
  unfolding on_header
  on_header-Outcome name lines conf h w = elim (Bool-cases (mem_text name (names conf))) [
    | inl there ↦ rw there tt
    | inr new ↦ rw new (goes lines _ _ h (add_stanza-IsWellFormed name conf new w))
  ]

  on_pair-Outcome :
      (key val : Text) (lines : List Text) (conf : Conf) (current : Option Text)
      → length lines < n
      → IsWellFormed conf
      → Outcome (on_pair go key val lines conf current)
  unfolding on_pair
  on_pair-Outcome key val lines conf none h w = tt
  on_pair-Outcome key val lines conf (some name) h w =
      elim (Bool-cases (mem_text key (keys (settings_of name conf)))) [
        | inl there ↦ rw there tt
        | inr new ↦ rw new (goes lines _ _ h (put_setting-IsWellFormed name key val conf new w))
      ]

  on_line-Outcome :
      (stripped : Text) (lines : List Text) (conf : Conf) (current : Option Text)
      → length lines < n
      → IsWellFormed conf
      → Outcome (on_line go stripped lines conf current)
  unfolding on_line
  on_line-Outcome stripped lines conf current h w = elim (Bool-cases (is_ignored stripped)) [
    | inl i ↦ rw i (goes lines conf current h w)
    | inr i ↦ rw i (elim (Bool-cases (is_header stripped)) [
      | inl j ↦ rw j (on_header-Outcome (drop_last (drop_first stripped)) lines conf h w)
      | inr j ↦ rw j (elim (Bool-cases (has_char b'=' stripped)) [
        | inl k ↦
            let val = strip (after b'=' stripped) in
            rw k (
              on_pair-Outcome (strip (before b'=' stripped)) _ _ conf current
                (omega (arith, continued-le val lines)) w)
        | inr k ↦ rw k tt
      ])
    ])
  ]

parse_lines-Outcome :
    (n : ℕ) (lines : List Text) (conf : Conf) (current : Option Text)
    → length lines < n
    → IsWellFormed conf
    → Outcome (parse_lines n lines conf current)
unfolding parse_lines
parse_lines-Outcome zero lines conf current h w = absurd (omega (arith, h))
parse_lines-Outcome (suc n) [] conf current h w = w
parse_lines-Outcome (suc n) (line ∷ lines) conf current h w =
    on_line-Outcome n (parse_lines n) (parse_lines-Outcome n) (strip line) lines conf current
      (omega (arith, h)) w

-- The parser always ends: one round for each line, and one more, suffice; and in what it reads no
-- stanza stands twice and no key stands twice in a stanza.
pub parse_conf-Outcome : (lines : List Text) → Outcome (parse_conf lines)
unfolding parse_conf
parse_conf-Outcome lines =
    parse_lines-Outcome (suc (length lines)) lines [] none (omega arith) (tt, tt)
