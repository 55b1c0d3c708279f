-- ===== src/Package/Sources/Harmless.antt =====
-- What a clean report tells of the Python files.
use app_datasource_validator.Prelude.{
  is_nil→eq, not-false, ◌≡◌, refl, subst, Bool, true, false, not, ◌&&◌, Option, none, some, List,
  [], ◌∷◌, keep, any, is_nil, is_some, All, cons-ne_nil, append-empty, arith, inl, inr, Bool-cases,
  if◌then◌else◌,
}
use app_datasource_validator.Text.{Text, codes, text_eq, mem_text}
use app_datasource_validator.Text.Equality.{In, In→mem_text, text_eq_refl}
use app_datasource_validator.Exec.{for_each}
use app_datasource_validator.Package.Report.{
  fail, Vouches, Vouches-bind, Vouches-both, Vouches-pure, Vouches-fail, Vouches-if, Vouches-passed,
  Vouches-warn, Vouches-for_each, Vouches-weaken, Sticks, Sticks-if, Sticks-passed, Sticks-warn,
  Sticks-for_each, sticks_rules,
}
use app_datasource_validator.Package.Tree.{
  Tree, PythonFile, Node, import_names, import_from, attribute, call_of, other_node, TestRun,
}
use app_datasource_validator.Package.Sources.{
  check_placeholders, forbidden_import_modules, forbidden_os_attrs, forbidden_builtin_calls,
  iter_python_files, python_source_dirs, check_syntax, check_python_syntax, top_level, modules_of,
  is_forbidden_module, hits_of, hits_in, nodes_of, lint_hits, check_python_lint, report_tests,
  run_unit_tests,
}

-- A node imports no module that starts processes, calls none of the forbidden functions by its name,
-- and takes none of the forbidden attributes of the name `os`.
abbrev pub IsAllowed : Text → Type 0
IsAllowed name = ¬ In (top_level name) forbidden_import_modules

abbrev pub IsHarmless : Node → Type 0
IsHarmless (import_names names) = All (λ n. IsAllowed n) names
IsHarmless (import_from origin absolute names) = All (λ n. IsAllowed n) (modules_of origin names)
IsHarmless (attribute value attr) = value ≡ some (codes "os") → ¬ In attr forbidden_os_attrs
IsHarmless (call_of name) = ¬ In name forbidden_builtin_calls
IsHarmless other_node = Unit

none_forbidden :
    (names : List Text) → keep is_forbidden_module names ≡ [] → All (λ n. IsAllowed n) names
none_forbidden [] h = tt
none_forbidden (name ∷ names) h = elim (Bool-cases (is_forbidden_module name)) [
  | inl bad ↦ absurd (cons-ne_nil _ _ (rw bad at h))
  | inr fine ↦ (
    λ m. cc (fine, In→mem_text (top_level name) forbidden_import_modules m),
    none_forbidden names (rw fine at h),
  )
]

single : (b : Bool) (t : Text) → (if b then t ∷ [] else []) ≡ [] → b ≡ false
single true t h = cc
single false t h = refl

some-injective : {s t : Text} → ◌≡◌ {A = Option Text} (some s) (some t) → s ≡ t
some-injective e = cc

both_hold : (a b : Bool) → a ≡ true → b ≡ true → a && b ≡ false → ⊥
both_hold a b p q h = ground (arith, p, q, h)

hits_of-IsHarmless : (node : Node) → hits_of node ≡ [] → IsHarmless node
unfolding hits_of
hits_of-IsHarmless (import_names names) h = none_forbidden names h
hits_of-IsHarmless (import_from origin absolute names) h =
    none_forbidden (modules_of origin names) h
hits_of-IsHarmless (attribute none attr) h = λ os m. cc
hits_of-IsHarmless (attribute (some name) attr) h = λ os m.
    let same : name ≡ codes "os" = some-injective os in
    let refused : mem_text attr forbidden_os_attrs && text_eq name (codes "os") ≡ false =
      single _ attr h in
    let never : mem_text attr forbidden_os_attrs && text_eq (codes "os") (codes "os") ≡ false =
      subst (λ (t : Text). mem_text attr forbidden_os_attrs && text_eq t (codes "os") ≡ false) same
        refused in
    both_hold _ _ (In→mem_text attr forbidden_os_attrs m) (text_eq_refl (codes "os")) never
hits_of-IsHarmless (call_of name) h =
    λ m. cc (single _ name h, In→mem_text name forbidden_builtin_calls m)
hits_of-IsHarmless other_node h = tt

hits_in-Harmless : (nodes : List Node) → hits_in nodes ≡ [] → All (λ n. IsHarmless n) nodes
hits_in-Harmless [] h = tt
hits_in-Harmless (node ∷ nodes) h =
    let (here, later) = append-empty _ _ h in
    (hits_of-IsHarmless node here, hits_in-Harmless nodes later)

lint_hits-Harmless :
    (files : List PythonFile)
    → lint_hits files ≡ []
    → All (λ f. All (λ n. IsHarmless n) (nodes_of f)) files
unfolding lint_hits
lint_hits-Harmless [] h = tt
lint_hits-Harmless (file ∷ files) h =
    let (here, later) = append-empty _ _ h in
    (hits_in-Harmless (nodes_of file) here, lint_hits-Harmless files later)

-- Every Python file under bin/ is harmless as far as its nodes tell, and every one under bin/ and
-- tools/ parses.
abbrev pub Harmless : Tree → Type 0
Harmless tree =
    All (λ f. All (λ n. IsHarmless n) (nodes_of f)) (iter_python_files tree (codes "bin" ∷ []))

abbrev pub Parses : Tree → Type 0
Parses tree = All (λ f. is_some f.nodes ≡ true) (iter_python_files tree python_source_dirs)

check_syntax-Vouches : (f : PythonFile) → Vouches (λ _. is_some f.nodes ≡ true) (check_syntax f)
unfolding check_syntax
check_syntax-Vouches f =
    Vouches-if (is_some f.nodes) _ _ (λ parses. Vouches-pure tt parses) (λ _. Vouches-fail _)

pub check_python_syntax-Vouches :
    (tree : Tree) → Vouches (λ _. Parses tree) (check_python_syntax tree)
unfolding check_python_syntax
check_python_syntax-Vouches tree =
    let files = iter_python_files tree python_source_dirs in
    Vouches-weaken _ (λ _ p. p.0.1)
      (Vouches-both _ _ (Vouches-for_each files check_syntax check_syntax-Vouches)
        (Sticks-if (any (λ f. is_some f.nodes) files) _ _ (Sticks-passed _) (Sticks-warn _)))

failing_hits :
    (hits : List Text)
    → is_nil hits ≡ false
    → (P : Type 0) → Vouches (λ _. P) (for_each hits (λ hit. fail "python lint"))
unfolding for_each
failing_hits [] h P = cc
failing_hits (hit ∷ hits) h P =
    Vouches-bind {P = λ _. ⊥} (fail _) (λ _. for_each hits (λ hit. fail _)) (Vouches-fail _)
      (λ _. Sticks-for_each hits (λ hit. fail _) (λ hit. Vouches-fail _)) (λ _ h. absurd h)

pub check_python_lint-Vouches :
    (tree : Tree) → Vouches (λ _. Harmless tree) (check_python_lint tree)
unfolding check_python_lint
check_python_lint-Vouches tree =
    let hits = lint_hits (iter_python_files tree (codes "bin" ∷ [])) in
    Vouches-if (is_nil hits) _ _
      (λ clean. Vouches-passed _ (lint_hits-Harmless _ (is_nil→eq hits clean)))
      (λ dirty. failing_hits hits dirty _)

pub check_placeholders-Sticks : (tree : Tree) → Sticks (check_placeholders tree)
unfolding check_placeholders
check_placeholders-Sticks tree = search sticks_rules

-- Where there are tests, some ran and all of them passed.
abbrev pub Passes : Option TestRun → Type 0
Passes none = Unit
Passes (some run) = (run.ran_any ≡ true) × (run.was_successful ≡ true)

report_tests-Vouches : (run : Option TestRun) → Vouches (λ _. Passes run) (report_tests run)
report_tests-Vouches none = Vouches-warn _ tt
report_tests-Vouches (some run) =
    Vouches-if (not run.ran_any) _ _ (λ _. Vouches-fail _)
      (λ ran.
        Vouches-if run.was_successful _ _ (λ success. Vouches-passed _ (not-false _ ran, success))
          (λ _.
            Vouches-bind {P = λ _. ⊥} (fail _) (λ _. for_each _ (λ test. fail _)) (Vouches-fail _)
              (λ _. Sticks-for_each _ (λ test. fail _) (λ test. Vouches-fail _)) (λ _ h. absurd h)))

pub run_unit_tests-Vouches :
    (tree : Tree) → Vouches (λ _. Passes tree.unit_tests) (run_unit_tests tree)
unfolding run_unit_tests
run_unit_tests-Vouches tree = report_tests-Vouches tree.unit_tests
