-- ===== src/Package/Build/Ships.antt =====
-- What is known of a package that is built.
use app_datasource_validator.Prelude.{
  is_nil→eq, not-true, ◌≡◌, refl, ap, ◌⊎◌, inl, inr, true, false, not, Option, none, some, List, [],
  ◌∷◌, keep, any, All, any→All, All-keep_passed, All-sort, sort, cons-ne_nil, append-empty, arith,
  Bool-cases,
}
use app_datasource_validator.Text.{Text, codes, mem_text}
use app_datasource_validator.Text.Equality.{In, In→mem_text}
use app_datasource_validator.Text.Search.{starts_in}
use app_datasource_validator.Exec.{Result, ok, err}
use app_datasource_validator.Package.Report.{Report}
use app_datasource_validator.Package.Tree.{PythonFile, Node}
use app_datasource_validator.Package.Sources.{iter_python_files, nodes_of}
use app_datasource_validator.Package.Validator.{check_all, empty_report, exit_code_of}
use app_datasource_validator.Package.Validator
use app_datasource_validator.Package.Validator.Safe.{IsSafe, main-IsSafe}
use app_datasource_validator.Package.Build.{
  WorkingFile, Workspace, exclude_dir_names, exclude_file_names, exclude_file_suffixes,
  is_shippable, shippable_files, scanned_suffixes, leaks, imported, is_expected, unexpected_imports,
  unexpected_in, add_unexpected, validated, run_validator, secret_scan, nothing_unexpected,
  dependency_scan, run_stages, main,
}
use app_datasource_validator.Package.Build.Stages.{pipeline-Outcome}

-- A file that may ship: none of its path's parts is an excluded directory or starts with a dot, and
-- neither its name nor its suffix is excluded.
pub record IsShippable (f : WorkingFile) : Type 0 where
  pub no_excluded : All (λ part. ¬ In part exclude_dir_names) f.rel_parts
  pub no_dot : All (λ part. starts_in b'.' part ≡ false) f.rel_parts
  pub own_name : ¬ In f.name exclude_file_names
  pub own_suffix : ¬ In f.suffix exclude_file_suffixes

not-In : (t : Text) (xs : List Text) → mem_text t xs ≡ false → ¬ In t xs
not-In t xs h m = cc (h, In→mem_text t xs m)

none-In : (ys xs : List Text) → All (λ x. mem_text x ys ≡ false) xs → All (λ x. ¬ In x ys) xs
none-In ys [] h = tt
none-In ys (x ∷ xs) (h, hs) = (not-In x ys h, none-In ys xs hs)

is_shippable-IsShippable : (f : WorkingFile) → is_shippable f ≡ true → IsShippable f
unfolding is_shippable
is_shippable-IsShippable f h = record {
  no_excluded =
      none-In exclude_dir_names f.rel_parts
        (any→All (λ part. mem_text part exclude_dir_names) f.rel_parts (ground (arith, h)));
  no_dot = any→All (starts_in b'.') f.rel_parts (ground (arith, h));
  own_name = not-In f.name exclude_file_names (ground (arith, h));
  own_suffix = not-In f.suffix exclude_file_suffixes (ground (arith, h));
}

-- A file that the secret scan has read and found clean, if it reads it: one whose suffix is not
-- scanned, or whose contents are no UTF-8 text, is not looked at.
abbrev pub IsClean : Workspace → WorkingFile → Type 0
IsClean space f =
    In f.suffix scanned_suffixes → (t : Text) → f.contents ≡ some t → space.has_secret t ≡ false

leaks-IsClean : (space : Workspace) (f : WorkingFile) → leaks space f ≡ false → IsClean space f
unfolding leaks
leaks-IsClean space f h scanned t e =
    ground (arith, rw (In→mem_text f.suffix scanned_suffixes scanned, e) at h)

All-leaks :
    (space : Workspace) (files : List WorkingFile)
    → All (λ f. leaks space f ≡ false) files
    → All (λ f. IsClean space f) files
All-leaks space [] h = tt
All-leaks space (f ∷ fs) (h, hs) = (leaks-IsClean space f h, All-leaks space fs hs)

-- What a release is: the validator has found the app safe; the files may ship, and those that are
-- scanned are clean; and the Python files under bin/ parse and import what is expected.
pub record IsReleased (space : Workspace) (files : List WorkingFile) : Type 0 where
  pub safe : IsSafe space.tree
  pub shippable : All (λ f. IsShippable f) files
  pub scanned_clean : All (λ f. IsClean space f) files
  pub expected :
      All
        (λ f. All (λ n. All (λ name. is_expected space name ≡ true) (imported n)) (nodes_of f))
        (iter_python_files space.tree (codes "bin" ∷ []))

ok-injective : {A : Type 0} {a b : A} → ◌≡◌ {A = Result A} (ok a) (ok b) → a ≡ b
ok-injective e = cc

none_unexpected :
    (space : Workspace) (names : List Text)
    → keep (λ name. not (is_expected space name)) names ≡ []
    → All (λ name. is_expected space name ≡ true) names
none_unexpected space [] h = tt
none_unexpected space (name ∷ names) h = elim (Bool-cases (is_expected space name)) [
  | inl fine ↦ (fine, none_unexpected space names (rw fine at h))
  | inr bad ↦ absurd (cons-ne_nil _ _ (rw bad at h))
]

expected_nodes :
    (space : Workspace) (nodes : List Node)
    → unexpected_in space nodes ≡ []
    → All (λ n. All (λ name. is_expected space name ≡ true) (imported n)) nodes
expected_nodes space [] h = tt
expected_nodes space (node ∷ nodes) h =
    let (here, later) = append-empty _ _ h in
    (none_unexpected space (imported node) here, expected_nodes space nodes later)

-- A file that parses, as all after it do, and that imports nothing unexpected.
added :
    (space : Workspace) (nodes : Option (List Node)) (rest : Result (List Text))
    → add_unexpected space nodes rest ≡ ok []
    → (rest ≡ ok [])
      × All
          (λ n. All (λ name. is_expected space name ≡ true) (imported n))
          (elim nodes [ none ↦ [] | some ns ↦ ns ])
added space none rest h = cc
added space (some ns) (err e) h = cc
added space (some ns) (ok names) h =
    let (here, later) = append-empty (unexpected_in space ns) names (ok-injective h) in
    (ap (λ (xs : List Text). ok xs) later, expected_nodes space ns here)

expected_files :
    (space : Workspace) (files : List PythonFile)
    → unexpected_imports space files ≡ ok []
    → All
        (λ f. All (λ n. All (λ name. is_expected space name ≡ true) (imported n)) (nodes_of f))
        files
unfolding unexpected_imports
expected_files space [] h = tt
expected_files space (file ∷ files) h =
    let (later, here) = added space file.nodes (unexpected_imports space files) h in
    (here, expected_files space files later)

none_left : (names : Result (List Text)) → nothing_unexpected names ≡ ok true → names ≡ ok []
none_left (err e) h = cc
none_left (ok names) h = ap (λ (xs : List Text). ok xs) (is_nil→eq names (ok-injective h))

validated-main :
    (later : Result (Unit {0}) × Report) → validated later ≡ ok true → exit_code_of later ≡ 0
validated-main (err e, r) h = cc
validated-main (ok u, r) h = rw (ok-injective h) refl

-- The files of the archive are those that may ship.
shipped-IsShippable :
    (space : Workspace) → All (λ f. IsShippable f) (sort space.path_le (shippable_files space))
unfolding shippable_files
shipped-IsShippable space =
    All-sort space.path_le (λ f. IsShippable f) (shippable_files space)
      (All-keep_passed is_shippable (λ f h _. is_shippable-IsShippable f h) space.working_files
        (All-any space.working_files))
  where
    All-any : (fs : List WorkingFile) → All (λ f. Unit {0}) fs
    All-any [] = tt
    All-any (f ∷ fs) = (tt, All-any fs)

released :
    (space : Workspace)
    → validated (check_all space.tree empty_report) ≡ ok true
    → not (any (leaks space) (shippable_files space)) ≡ true
    → nothing_unexpected
        (unexpected_imports space (iter_python_files space.tree (codes "bin" ∷ [])))
      ≡ ok true
    → IsReleased space (sort space.path_le (shippable_files space))
released space a b c = record {
  safe = main-IsSafe space.tree (unfold Validator.main in validated-main _ a);
  shippable = shipped-IsShippable space;
  scanned_clean = All-leaks space (sort space.path_le (shippable_files space)) (
      All-sort space.path_le (λ f. leaks space f ≡ false) (shippable_files space)
        (any→All (leaks space) (shippable_files space) (not-true _ b)));
  expected = expected_files space _ (none_left _ c);
}

-- The build either ends with exit code 0 and has written an archive, which is a release: the
-- validator has found the app safe; all files of the archive may ship; each of them whose suffix is
-- one of the eight that are scanned, and whose contents are a text, shows no secret that the patterns
-- match; and the Python files under bin/ parse and import only what is expected. Or it ends with
-- another code and has written none.
pub main-IsReleased :
    (space : Workspace)
    → ((main space).0 ≡ 0
        → ((main space).1.archive ≡ some (sort space.path_le (shippable_files space)))
          × IsReleased space (sort space.path_le (shippable_files space)))
      × (((main space).0 ≡ 0) ⊎ ((main space).1.archive ≡ none))
unfolding main run_stages run_validator secret_scan dependency_scan
main-IsReleased space =
    let (zero, else_none) =
      pipeline-Outcome space (validated (check_all space.tree empty_report))
        (not (any (leaks space) (shippable_files space)))
        (nothing_unexpected
          (unexpected_imports space (iter_python_files space.tree (codes "bin" ∷ [])))) in
    (λ h. let (a, b, c, wrote) = zero h in (wrote, released space a b c), else_none)
