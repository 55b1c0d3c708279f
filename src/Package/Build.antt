-- ===== src/Package/Build.antt =====
-- tools/build_package.py: the stages of the build, each run only where all before it passed, and what
-- ships. The archive, its digest and the texts printed are left out.
pub mod Stages
pub mod Ships
use app_datasource_validator.Prelude.{
  ℕ, Bool, true, false, not, ◌&&◌, ◌||◌, Option, none, some, String, List, [], ◌∷◌, ◌++◌, map, keep,
  any, is_nil, sort, ◌==◌, if◌then◌else◌,
}
use app_datasource_validator.Text.{Text, codes, text_eq, mem_text}
use app_datasource_validator.Text.Search.{starts_in}
use app_datasource_validator.Json.{Json, null, boolean, number, text, array, object, Fields, lookup}
use app_datasource_validator.Exec.{
  Error, Result, ok, err, key_error, rest_error, Exec, pure, raise, lift, modify, ◌>>=◌, ◌>>◌,
}
use app_datasource_validator.Package.Report.{Report}
use app_datasource_validator.Package.Tree.{
  Tree, PythonFile, Node, import_names, import_from, attribute, call_of, other_node,
}
use app_datasource_validator.Package.Sources.{iter_python_files, top_level}
use app_datasource_validator.Package.Manifest.{as_object}
use app_datasource_validator.Package.Validator.{check_all, empty_report}

-- A file below the root: what `pathlib` says of its path, and its text where it can be decoded.
pub record WorkingFile : Type 0 where
  pub rel_parts : List Text
  pub name : Text
  pub suffix : Text
  pub contents : Option Text

-- The working tree as the build sees it: the validator's view; the files that `rglob` finds, with
-- their order; the names of the modules in bin/ itself; and whether the patterns of `SECRET_PATTERNS`
-- match a text.
pub record Workspace : Type 0 where
  pub tree : Tree
  pub working_files : List WorkingFile
  pub path_le : WorkingFile → WorkingFile → Bool
  pub bin_modules : List Text
  pub has_secret : Text → Bool

abbrev pub exclude_dir_names : List Text
exclude_dir_names = map codes ("tests" ∷ "tools" ∷ "__pycache__" ∷ ".git" ∷ ".pytest_cache" ∷ [])

abbrev pub exclude_file_names : List Text
exclude_file_names = codes "HANDOFF.md" ∷ []

abbrev pub exclude_file_suffixes : List Text
exclude_file_suffixes = codes ".pyc" ∷ codes ".pyo" ∷ []

unfoldable pub is_shippable : WorkingFile → Bool
unfolding mem_text
is_shippable file =
    not (any (λ part. mem_text part exclude_dir_names) file.rel_parts)
    && (not (any (starts_in b'.') file.rel_parts)
        && (not (mem_text file.name exclude_file_names)
            && not (mem_text file.suffix exclude_file_suffixes)))

unfoldable pub shippable_files : Workspace → List WorkingFile
unfolding is_shippable
shippable_files space = keep is_shippable space.working_files

abbrev pub scanned_suffixes : List Text
scanned_suffixes = map codes (".py" ∷ ".conf" ∷ ".xml" ∷ ".js" ∷ ".json" ∷ ".css" ∷ ".md" ∷ "" ∷ [])

abbrev pub text_has_secret : Workspace → Option Text → Bool
text_has_secret space none = false
text_has_secret space (some t) = space.has_secret t

unfoldable pub leaks : Workspace → WorkingFile → Bool
unfolding mem_text
leaks space file = mem_text file.suffix scanned_suffixes && text_has_secret space file.contents

abbrev pub stdlib_allowed : List Text
stdlib_allowed = map codes (
    "sys" ∷ "os" ∷ "json" ∷ "time" ∷ "hashlib" ∷ "uuid" ∷ "datetime" ∷ "socket" ∷ "threading"
    ∷ "logging" ∷ "re" ∷ "dataclasses" ∷ "typing" ∷ "pathlib" ∷ "collections" ∷ "xml" ∷ "traceback"
    ∷ "io" ∷ [])

abbrev pub local_module_prefixes : List Text
local_module_prefixes = codes "app" ∷ []

-- The modules that a node imports, by the first part of their names; relative imports give none.
abbrev pub of_module : Option Text → List Text
of_module none = []
of_module (some origin) = if is_nil origin then [] else top_level origin ∷ []

unfoldable pub imported : Node → List Text
imported (import_names names) = map top_level names
imported (import_from origin absolute names) = if absolute then of_module origin else []
imported (attribute value attr) = []
imported (call_of name) = []
imported other_node = []

unfoldable pub is_expected : Workspace → Text → Bool
unfolding mem_text text_eq
is_expected space name =
    mem_text name stdlib_allowed
    || mem_text name local_module_prefixes
    || mem_text name space.bin_modules
    || text_eq name (codes "splunk")

abbrev pub unexpected_in : Workspace → List Node → List Text
unexpected_in space [] = []
unexpected_in space (node ∷ nodes) =
    keep (λ name. not (is_expected space name)) (imported node) ++ unexpected_in space nodes

-- What the files import unexpectedly; `ast.parse` raises SyntaxError, an internal error here.
abbrev pub add_unexpected : Workspace → Option (List Node) → Result (List Text) → Result (List Text)
add_unexpected space none rest = err rest_error
add_unexpected space (some nodes) (ok names) = ok (unexpected_in space nodes ++ names)
add_unexpected space (some nodes) (err e) = err e

unfoldable pub unexpected_imports : Workspace → List PythonFile → Result (List Text)
unfolding is_expected imported
unexpected_imports space [] = ok []
unexpected_imports space (file ∷ files) =
    add_unexpected space file.nodes (unexpected_imports space files)

-- REPORT, with the files of the archive once it is written.
pub record BuildReport : Type 0 where
  pub stages : List (String × Bool)
  pub all_passed : Bool
  pub archive : Option (List WorkingFile)

abbrev pub Build : Type 0 → Type 0
Build A = Exec BuildReport A

-- The decorator `stage`: what a stage raises passes through.
unfoldable pub stage : String → Build Bool → Build (Unit {0})
unfolding modify
stage name fn = fn >>= λ passed. modify (λ r. record r {
  stages = r.stages ++ (name, passed) ∷ [];
  all_passed = r.all_passed && passed;
})

abbrev pub clean : Build Bool
clean = pure true

abbrev pub validated : Result (Unit {0}) × Report → Result Bool
validated (ok _, report) = ok (is_nil report.failures)
validated (err e, report) = err e

unfoldable pub run_validator : Workspace → Build Bool
unfolding check_all
run_validator space = lift (validated (check_all space.tree empty_report))

unfoldable pub secret_scan : Workspace → Build Bool
unfolding leaks shippable_files
secret_scan space = pure (not (any (leaks space) (shippable_files space)))

abbrev pub nothing_unexpected : Result (List Text) → Result Bool
nothing_unexpected (ok names) = ok (is_nil names)
nothing_unexpected (err e) = err e

unfoldable pub dependency_scan : Workspace → Build Bool
unfolding unexpected_imports iter_python_files
dependency_scan space = lift (
    nothing_unexpected (unexpected_imports space (iter_python_files space.tree (codes "bin" ∷ []))))

-- `value[key]`
abbrev item_of : Option Json → Result Json
item_of none = err key_error
item_of (some value) = ok value

unfoldable pub subscript : String → Json → Result Json
unfolding as_object lookup
subscript key value = elim (as_object value) [
  | err e ↦ err e
  | ok fields ↦ item_of (lookup key fields)
]

abbrev pub given_manifest : Option Json → Result Json
given_manifest none = err rest_error
given_manifest (some manifest) = ok manifest

unfoldable pub package_app : Workspace → Build Bool
unfolding modify subscript shippable_files
package_app space = do
  manifest ← lift (given_manifest space.tree.manifest)
  info ← lift (subscript "info" manifest)
  app_id ← lift (subscript "id" info)
  version ← lift (subscript "version" app_id)
  _ ← modify (λ r. record r { archive = some (sort space.path_le (shippable_files space)) })
  pure true

-- `if REPORT["ok"]: stage()`
unfoldable pub if_ok : Build (Unit {0}) → Build (Unit {0})
if_ok next now = if now.all_passed then next now else (ok tt, now)

unfoldable pub run_stages : Workspace → Build (Unit {0})
unfolding run_validator secret_scan dependency_scan package_app if_ok stage
run_stages space = do
  _ ← stage "clean" clean
  _ ← if_ok (stage "conf/XML/JSON lint + unit tests" (run_validator space))
  _ ← if_ok (stage "secret scan" (secret_scan space))
  _ ← if_ok (stage "dependency scan" (dependency_scan space))
  if_ok (stage "stage + package .spl" (package_app space))

abbrev pub initial_report : BuildReport
initial_report = record { stages = []; all_passed = true; archive = none }

-- The exit code and the report; an exception ends the process with 1.
abbrev pub ended : Result (Unit {0}) × BuildReport → ℕ × BuildReport
ended (ok _, report) = (if report.all_passed then 0 else 1, report)
ended (err e, report) = (1, report)

unfoldable pub main : Workspace → ℕ × BuildReport
unfolding run_stages
main space = ended (run_stages space initial_report)
