-- ===== src/Package/Sources.antt =====
-- tools/validate_phase1.py: the checks of the texts, of the Python files and of the unit tests.
pub mod Harmless
use app_datasource_validator.Prelude.{
  Bool, true, false, not, ◌&&◌, ◌||◌, Option, none, some, List, [], ◌∷◌, ◌++◌, map, keep, any, all,
  is_nil, is_some, if◌then◌else◌,
}
use app_datasource_validator.Text.{Text, codes, text_eq, mem_text}
use app_datasource_validator.Text.Search.{contains, before}
use app_datasource_validator.Exec.{pure, for_each, ◌>>=◌, ◌>>◌}
use app_datasource_validator.Package.Report.{Check, passed, warn, fail}
use app_datasource_validator.Package.Tree.{
  Tree, TextFile, PythonFile, Node, import_names, import_from, attribute, call_of, other_node,
  TestRun,
}

abbrev known_placeholders : List Text
known_placeholders = map codes (
    "[YOUR ORG]" ∷ "[SUPPORT EMAIL]" ∷ "[SUPPORT MODEL]" ∷ "[DATE]" ∷ "[VERSION]" ∷ "REPLACE_WITH_"
    ∷ [])

abbrev text_has_placeholder : Option Text → Bool
text_has_placeholder none = false
text_has_placeholder (some t) = any (λ token. contains token t) known_placeholders

unfoldable pub has_placeholder : TextFile → Bool
unfolding contains mem_text
has_placeholder file =
    not (mem_text (codes ".git") file.parts) && text_has_placeholder file.contents

unfoldable pub check_placeholders : Tree → Check (Unit {0})
unfolding has_placeholder
check_placeholders tree =
    if any has_placeholder tree.files
    then warn "known deployment placeholders still present"
    else pure tt

abbrev pub forbidden_import_modules : List Text
forbidden_import_modules = map codes ("subprocess" ∷ "pty" ∷ "commands" ∷ "shlex" ∷ [])

abbrev pub forbidden_os_attrs : List Text
forbidden_os_attrs = map codes (
    "system" ∷ "popen" ∷ "popen2" ∷ "popen3" ∷ "popen4" ∷ "spawnl" ∷ "spawnle" ∷ "spawnlp"
    ∷ "spawnlpe" ∷ "spawnv" ∷ "spawnve" ∷ "spawnvp" ∷ "spawnvpe" ∷ "execl" ∷ "execle" ∷ "execlp"
    ∷ "execlpe" ∷ "execv" ∷ "execve" ∷ "execvp" ∷ "execvpe" ∷ "fork" ∷ "forkpty" ∷ [])

abbrev pub forbidden_builtin_calls : List Text
forbidden_builtin_calls = map codes ("eval" ∷ "exec" ∷ "execfile" ∷ "compile" ∷ [])

-- `_iter_python_files`
abbrev files_below : Option (List PythonFile) → List PythonFile
files_below none = []
files_below (some files) = keep (λ f. not (mem_text (codes "__pycache__") f.parts)) files

unfoldable pub iter_python_files : Tree → List Text → List PythonFile
unfolding mem_text
iter_python_files tree [] = []
iter_python_files tree (dir ∷ dirs) =
    files_below (tree.python_files dir) ++ iter_python_files tree dirs

abbrev pub python_source_dirs : List Text
python_source_dirs = codes "bin" ∷ codes "tools" ∷ []

unfoldable pub check_syntax : PythonFile → Check (Unit {0})
check_syntax file = if is_some file.nodes then pure tt else fail "syntax error"

unfoldable pub check_python_syntax : Tree → Check (Unit {0})
unfolding check_syntax iter_python_files
check_python_syntax tree =
    let files = iter_python_files tree python_source_dirs in
    for_each files check_syntax
    >> (if any (λ f. is_some f.nodes) files
        then passed "the files parse cleanly"
        else warn "no .py files found")

abbrev pub top_level : Text → Text
top_level name = before b'.' name

-- The modules that an import names; for `from module import ...` the module, where it has a name.
abbrev pub modules_of : Option Text → List Text → List Text
modules_of none names = names
modules_of (some origin) names = if is_nil origin then names else origin ∷ []

abbrev pub is_forbidden_module : Text → Bool
is_forbidden_module name = mem_text (top_level name) forbidden_import_modules

abbrev is_os : Option Text → Bool
is_os none = false
is_os (some name) = text_eq name (codes "os")

-- What a node is refused for.
unfoldable pub hits_of : Node → List Text
unfolding mem_text text_eq
hits_of (import_names names) = keep is_forbidden_module names
hits_of (import_from origin absolute names) = keep is_forbidden_module (modules_of origin names)
hits_of (attribute value attr) =
    if mem_text attr forbidden_os_attrs && is_os value then attr ∷ [] else []
hits_of (call_of name) = if mem_text name forbidden_builtin_calls then name ∷ [] else []
hits_of other_node = []

abbrev pub nodes_of : PythonFile → List Node
nodes_of file = elim file.nodes [ none ↦ [] | some nodes ↦ nodes ]

abbrev pub hits_in : List Node → List Text
hits_in [] = []
hits_in (node ∷ nodes) = hits_of node ++ hits_in nodes

-- A file that does not parse has no nodes: `check_python_syntax` reports it.
unfoldable pub lint_hits : List PythonFile → List Text
unfolding hits_of
lint_hits [] = []
lint_hits (file ∷ files) = hits_in (nodes_of file) ++ lint_hits files

unfoldable pub check_python_lint : Tree → Check (Unit {0})
unfolding iter_python_files lint_hits
check_python_lint tree =
    let hits = lint_hits (iter_python_files tree (codes "bin" ∷ [])) in
    if is_nil hits
    then passed "no shell/OS-process execution found under bin/"
    else for_each hits (λ hit. fail "python lint")

abbrev pub report_tests : Option TestRun → Check (Unit {0})
report_tests none = warn "tests/unit directory not found"
report_tests (some run) =
    if not run.ran_any
    then fail "no tests were discovered"
    else if run.was_successful
    then passed "tests passed"
    else (fail "failures and errors"
        >> for_each run.unsuccessful (λ test. fail "the test did not pass"))

unfoldable pub run_unit_tests : Tree → Check (Unit {0})
run_unit_tests tree = report_tests tree.unit_tests
