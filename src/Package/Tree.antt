-- ===== src/Package/Tree.antt =====
-- The working tree as the tools see it, which is given, and tools/validate_phase1.py: `load_conf` and
-- the checks on which files are there.
pub mod Loaded
use app_datasource_validator.Prelude.{
  ℤ, Bool, true, false, Option, none, some, String, List, [], ◌∷◌, ◌++◌, map, if◌then◌else◌,
}
use app_datasource_validator.Text.{Text, codes}
use app_datasource_validator.Json.{Json}
use app_datasource_validator.Exec.{pure, for_each, ◌>>=◌, ◌>>◌}
use app_datasource_validator.Package.Conf.{
  Conf, Reading, read, duplicate_stanza, neither_header_nor_pair, before_any_stanza, duplicate_key,
  out_of_fuel, parse_conf,
}
use app_datasource_validator.Package.Report.{Check, passed, warn, fail}

-- What `ast.walk` meets, as far as the tools look: the names of an `import`; the module, the level and
-- the names of a `from ... import`; an attribute, with the name it is taken of where that is a name; a
-- call of a name.
pub data Node : Type 0 where
  import_names : List Text → Node
  import_from : Option Text → Bool → List Text → Node
  attribute : Option Text → Text → Node
  call_of : Text → Node
  other_node : Node

-- A Python file: the parts of its path, and its nodes, where `ast.parse` accepts it.
pub record PythonFile : Type 0 where
  pub parts : List Text
  pub nodes : Option (List Node)

-- What `unittest` reports: whether any test ran and whether all succeeded, with those that did not.
pub record TestRun : Type 0 where
  pub ran_any : Bool
  pub was_successful : Bool
  pub unsuccessful : List Text

-- A path below the root that is no directory, with its text where it can be decoded.
pub record TextFile : Type 0 where
  pub parts : List Text
  pub contents : Option Text

-- The answers of the file system below the root, of `json.loads` for app.manifest, of `xml.etree` for
-- the views and of `unittest`, and the methods of `str` that depend on Unicode's tables.
pub record Tree : Type 0 where
  pub is_file : Text → Bool
  pub lines : Text → List Text
  pub manifest : Option Json
  pub nav_views : Option (List (Option Text))
  pub views : List (Text × Bool)
  pub files : List TextFile
  pub python_files : Text → Option (List PythonFile)
  pub unit_tests : Option TestRun
  pub lower : Text → Text
  pub isdigit : Text → Bool
  pub to_int : Text → Option ℤ

abbrev loaded : Reading → Check (Option Conf)
loaded (read conf) = passed "parsed, no duplicates" >> pure (some conf)
loaded (duplicate_stanza name) = fail "duplicate stanza" >> pure none
loaded (neither_header_nor_pair line) = fail "neither header nor pair" >> pure none
loaded (before_any_stanza key) = fail "key before any stanza" >> pure none
loaded (duplicate_key key name) = fail "duplicate key" >> pure none
loaded out_of_fuel = fail "out of fuel" >> pure none

unfoldable pub load_conf : Tree → Text → Check (Option Conf)
unfolding parse_conf
load_conf tree path =
    if tree.is_file path
    then loaded (parse_conf (tree.lines path))
    else fail "missing required file" >> pure none

abbrev pub required_files : List Text
required_files = map codes (
    "app.manifest" ∷ "README.md" ∷ "README/PRIVACY.md" ∷ "README/RELEASE_NOTES.md" ∷ "LICENSE"
    ∷ "default/app.conf" ∷ "default/authorize.conf" ∷ "default/collections.conf"
    ∷ "default/restmap.conf" ∷ "default/web.conf" ∷ "default/inputs.conf" ∷ "default/props.conf"
    ∷ "default/transforms.conf" ∷ "default/savedsearches.conf" ∷ "metadata/default.meta"
    ∷ "default/data/ui/nav/default.xml" ∷ "default/data/ui/views/setup.xml"
    ∷ "default/data/ui/views/home.xml" ∷ "default/data/ui/views/health.xml"
    ∷ "appserver/static/app.js" ∷ "appserver/static/app.css" ∷ "bin/dsv_validation_worker.py"
    ∷ "bin/search_executor.py" ∷ "bin/validation_controller.py" ∷ "bin/rest_config.py"
    ∷ "bin/rest_validation.py" ∷ "bin/rest_query.py" ∷ "bin/rest_health.py"
    ∷ "bin/app/splunk_client.py" ∷ "bin/app/rest_base.py" ∷ [])

unfoldable pub check_required_files : Tree → Check (Unit {0})
check_required_files tree = for_each required_files (λ path.
    if tree.is_file path then passed "required file present" else fail "required file missing")

abbrev disallowed_files : List Text
disallowed_files = codes "default/commands.conf" ∷ []

unfoldable pub check_no_placeholder_files : Tree → Check (Unit {0})
check_no_placeholder_files tree =
    for_each disallowed_files
      (λ path. if tree.is_file path then warn "the file is left out on purpose" else pure tt)
