-- ===== src/Package/Conf/RoundTrip.antt =====
-- What is written as a .conf file is read back.
use app_datasource_validator.Prelude.{
  ◌≡◌, refl, ◌∙◌, false, ◌||◌, Option, none, some, List, [], ◌∷◌, ◌++◌, map, map-append,
  append_assoc, append-nil, All, arith,
}
use app_datasource_validator.Text.{Text, text_eq, mem_text}
use app_datasource_validator.Package.Conf.{
  Settings, Conf, names, keys, read, parse_lines, parse_conf,
}
use app_datasource_validator.Package.Conf.WellFormed.{Distinct, text_eq_sym}
use app_datasource_validator.Package.Conf.Lines.{
  pair_line, conf_lines, IsPair, IsPrintable, run, run_header, run_pair,
}

Distinct-middle :
    (xs : List Text) (y : Text) (ys : List Text) → Distinct (xs ++ y ∷ ys) → mem_text y xs ≡ false
unfolding mem_text
Distinct-middle [] y ys d = refl
Distinct-middle (x ∷ xs) y ys (fresh, d) =
    ground (arith, mem_text-middle x xs y ys, Distinct-middle xs y ys d, text_eq_sym x y)
  where
    mem_text-middle :
        (x : Text) (xs : List Text) (y : Text) (ys : List Text)
        → mem_text x (xs ++ y ∷ ys) ≡ mem_text x xs || (text_eq x y || mem_text x ys)
    mem_text-middle x [] y ys = refl
    mem_text-middle x (z ∷ xs) y ys = ground (arith, mem_text-middle x xs y ys)

run_pairs :
    (ps : Settings) (lines : List Text) (conf : Conf) (name : Text) (settings : Settings)
    → All (λ p. IsPair p) ps
    → mem_text name (names conf) ≡ false
    → Distinct (keys (settings ++ ps))
    → run
        (map pair_line ps ++ lines)
        (conf ++ record { name = name; settings = settings } ∷ [])
        (some name)
      ≡ run lines (conf ++ record { name = name; settings = settings ++ ps } ∷ []) (some name)
run_pairs [] lines conf name settings all absent d = rw append-nil refl
run_pairs ((key, val) ∷ ps) lines conf name settings ((k, v), all) absent d =
    let d' : Distinct (keys settings ++ key ∷ keys ps) = rw map-append at d in
    run_pair key val (map pair_line ps ++ lines) conf name settings k v absent
      (Distinct-middle (keys settings) key (keys ps) d')
    ∙ run_pairs ps lines conf name (settings ++ (key, val) ∷ []) all absent (rw append_assoc d)
    ∙ rw append_assoc refl

run-conf_lines :
    (todo done : Conf) (current : Option Text)
    → Distinct (names (done ++ todo))
    → All (λ s. Distinct (keys s.settings) × All (λ p. IsPair p) s.settings) todo
    → run (conf_lines todo) done current ≡ read (done ++ todo)
unfolding parse_lines
run-conf_lines [] done current d all = rw append-nil refl
run-conf_lines (s ∷ todo) done current d ((ds, ps), all) =
    let d' : Distinct (names done ++ s.name ∷ names todo) = rw map-append at d in
    let new = Distinct-middle (names done) s.name (names todo) d' in
    run_header s.name (map pair_line s.settings ++ conf_lines todo) done current new
    ∙ run_pairs s.settings (conf_lines todo) done s.name [] ps new ds
    ∙ run-conf_lines todo (done ++ s ∷ []) (some s.name) (rw append_assoc d) all
    ∙ rw append_assoc refl

-- A .conf file that is written as a line for each stanza and one for each setting behind it, with no
-- blanks around the `=`, is read back as it was: the stanzas and the settings in their order. The
-- names of the stanzas differ, and so do the keys of a stanza; a key is not empty, has no `=` and no
-- blank at its ends, and starts with neither `#` nor `[`; a value has no blank at its ends and does not
-- end in a backslash.
pub parse_conf-conf_lines :
    (conf : Conf) → IsPrintable conf → parse_conf (conf_lines conf) ≡ read conf
unfolding parse_conf
parse_conf-conf_lines conf (d, all) = run-conf_lines conf [] none d all
