-- ===== src/Package/Validator.antt =====
-- tools/validate_phase1.py: `main`.
pub mod Findings
pub mod Safe
use app_datasource_validator.Prelude.{
  ℕ, Option, none, some, Bool, List, [], map, length, is_nil, if◌then◌else◌,
}
use app_datasource_validator.Text.{Text}
use app_datasource_validator.Exec.{Error, Result, ok, err, pure, ◌>>=◌}
use app_datasource_validator.Package.Report.{Report, Check}
use app_datasource_validator.Package.Tree.{Tree, check_required_files, check_no_placeholder_files}
use app_datasource_validator.Package.Authorize.{check_authorize}
use app_datasource_validator.Package.Endpoints.{
  check_collections, check_restmap, check_web, check_inputs, check_props,
}
use app_datasource_validator.Package.Access.{check_transforms, check_meta}
use app_datasource_validator.Package.Manifest.{check_manifest}
use app_datasource_validator.Package.Views.{check_app_conf, check_ui_views}
use app_datasource_validator.Package.Sources.{
  check_placeholders, check_python_syntax, check_python_lint, run_unit_tests,
}

abbrev pub first_names : Option (List Text × List Text) → Option (List Text)
first_names none = none
first_names (some (caps, roles)) = some caps

abbrev pub second_names : Option (List Text × List Text) → Option (List Text)
second_names none = none
second_names (some (caps, roles)) = some roles

abbrev pub count_of : Option (List Text) → Option ℕ
count_of none = none
count_of (some scripts) = some (length scripts)

unfoldable pub check_sources : Tree → Check (Unit {0})
unfolding check_python_syntax check_python_lint run_unit_tests
check_sources tree = do
  _ ← check_python_syntax tree
  _ ← check_python_lint tree
  run_unit_tests tree

-- The checks after that of restmap.conf, with what the earlier ones return.
unfoldable pub check_rest :
    Tree
    → Option (List Text × List Text)
    → Option (List Text)
    → Option (List Text)
    → Check (Unit {0})
unfolding check_web check_inputs check_props check_ui_views check_transforms check_meta
    check_placeholders check_sources
check_rest tree authorized collections scripts = do
  _ ← check_web tree (count_of scripts)
  _ ← check_inputs tree
  _ ← check_props tree
  _ ← check_ui_views tree
  _ ← check_transforms tree collections
  _ ← check_meta tree (second_names authorized) collections
  _ ← check_placeholders tree
  check_sources tree

unfoldable pub check_all : Tree → Check (Unit {0})
unfolding check_required_files check_no_placeholder_files check_manifest check_app_conf
    check_authorize check_collections check_restmap check_rest
check_all tree = do
  _ ← check_required_files tree
  _ ← check_no_placeholder_files tree
  version ← check_manifest tree
  _ ← check_app_conf tree version
  authorized ← check_authorize tree
  collections ← check_collections tree
  scripts ← check_restmap tree (first_names authorized)
  check_rest tree authorized collections scripts

-- The exit code of the process: an exception that nothing catches ends it with 1.
abbrev pub exit_code_of : Result (Unit {0}) × Report → ℕ
exit_code_of (ok _, report) = if is_nil report.failures then 0 else 1
exit_code_of (err e, report) = 1

abbrev pub empty_report : Report
empty_report = record { passes = []; warnings = []; failures = [] }

unfoldable pub main : Tree → ℕ
unfolding check_all
main tree = exit_code_of (check_all tree empty_report)
