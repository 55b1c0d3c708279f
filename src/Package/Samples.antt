-- ===== src/Package/Samples.antt =====
-- A small app that the validator accepts, for the tests.
use app_datasource_validator.Prelude.{
  ℕ, zero, suc, ◌+◌, true, false, none, some, String, List, [], ◌∷◌, ◌++◌, map, is_nil,
  if◌then◌else◌,
}
use app_datasource_validator.Text.{Text, codes, text_eq, text_leb, ascii_lower}
use app_datasource_validator.Json.{Json, text, object, empty_object, field}
use app_datasource_validator.Package.Tree.{Tree, PythonFile, import_names}
use app_datasource_validator.Package.Build.{WorkingFile, Workspace}

abbrev pub lines_of : List String → List Text
lines_of = map codes

-- The same lines once for each number below a bound, behind a header with the number in it.
abbrev numbered : Text → List Text → ℕ → List Text
numbered prefix body zero = []
numbered prefix body (suc n) = (prefix ++ (97 + n) ∷ b']' ∷ []) ∷ body ++ numbered prefix body n

abbrev authorize_lines : List Text
authorize_lines =
    numbered (codes "[capability::dsv_") [] 4
    ++ lines_of (
        "# roles" ∷ "[role_dsv_admin]" ∷ "dsv_a = enabled" ∷ "[role_dsv_editor]"
        ∷ "[role_dsv_viewer]" ∷ "[role_dsv_service]" ∷ "srchIndexesAllowed = os"
        ∷ "rtSrchJobsQuota = 0" ∷ [])

abbrev collection_lines : List Text
collection_lines = numbered (codes "[dsv_") (lines_of ("field.name = string" ∷ [])) 7

abbrev restmap_lines : List Text
restmap_lines =
    numbered (codes "[script:dsv_")
      (lines_of
        ("script = rest_config.py" ∷ "passSystemAuth = false" ∷ "capability.get = dsv_a" ∷ []))
      11

abbrev web_lines : List Text
web_lines = numbered (codes "[expose:dsv_") (lines_of ("pattern = dsv" ∷ "methods = GET" ∷ [])) 11

abbrev meta_lines : List Text
meta_lines =
    numbered (codes "[collections/dsv_")
      (lines_of ("access = read : [ dsv_admin, dsv_editor ], write : [ dsv_admin ]" ∷ [])) 7

abbrev app_lines : List Text
app_lines = lines_of (
    "[install]" ∷ "is_configured = false" ∷ "[ui]" ∷ "setup_view = setup" ∷ "[package]"
    ∷ "id = datasource_validator" ∷ "check_for_updates = true" ∷ "[launcher]" ∷ "version = 1.0.0"
    ∷ [])

abbrev input_lines : List Text
input_lines = lines_of ("[dsv_validation_worker://default]" ∷ "disabled = 1" ∷ [])

abbrev props_lines : List Text
props_lines =
    lines_of ("[source::dsv.log]" ∷ "sourcetype = dsv:log" ∷ "[dsv:log]" ∷ "TRUNCATE = 0" ∷ [])

abbrev files : List (Text × List Text)
files =
    (codes "default/authorize.conf", authorize_lines)
    ∷ (codes "default/collections.conf", collection_lines)
    ∷ (codes "default/restmap.conf", restmap_lines)
    ∷ (codes "default/web.conf", web_lines)
    ∷ (codes "metadata/default.meta", meta_lines)
    ∷ (codes "default/app.conf", app_lines)
    ∷ (codes "default/inputs.conf", input_lines)
    ∷ (codes "default/props.conf", props_lines)
    ∷ []

abbrev lines_in : List (Text × List Text) → Text → List Text
lines_in [] path = []
lines_in ((p, ls) ∷ rest) path = if text_eq path p then ls else lines_in rest path

abbrev sample_manifest : Json
sample_manifest = object (
    field "schemaVersion" (text "2.0.0") (
      field "info"
        (object (
          field "id"
            (object (
              field "name" (text "datasource_validator")
                (field "version" (text "1.0.0") empty_object)))
            (field "license" (object (field "name" (text "Apache License 2.0") empty_object))
              empty_object)))
        empty_object))

abbrev sample_python : List PythonFile
sample_python =
    record {
      parts = codes "bin" ∷ codes "rest_config.py" ∷ [];
      nodes = some (import_names (codes "os.path" ∷ codes "json" ∷ []) ∷ []);
    }
    ∷ []

unfoldable pub sample_tree : Tree
unfolding text_eq ascii_lower
sample_tree = record {
  is_file = λ path. true;
  lines = lines_in files;
  manifest = some sample_manifest;
  nav_views = some (some (codes "home") ∷ none ∷ []);
  views = (codes "default/data/ui/views/home.xml", true) ∷ [];
  files = [];
  python_files = λ dir. if text_eq dir (codes "bin") then some sample_python else none;
  unit_tests = some record { ran_any = true; was_successful = true; unsuccessful = [] };
  lower = ascii_lower;
  isdigit = λ t. false;
  to_int = λ t. none;
}

abbrev working_file : List String → String → String → WorkingFile
working_file parts name suffix = record {
  rel_parts = map codes parts;
  name = codes name;
  suffix = codes suffix;
  contents = some (codes "x");
}

abbrev pub app_file : WorkingFile
app_file = working_file ("bin" ∷ "rest_config.py" ∷ []) "rest_config.py" ".py"

-- Of these files the first may ship.
unfoldable pub sample_space : Workspace
unfolding sample_tree text_leb
sample_space = record {
  tree = sample_tree;
  working_files =
      app_file
      ∷ working_file ("tests" ∷ "fakes.py" ∷ []) "fakes.py" ".py"
      ∷ working_file ("HANDOFF.md" ∷ []) "HANDOFF.md" ".md"
      ∷ working_file (".gitignore" ∷ []) ".gitignore" ""
      ∷ [];
  path_le = λ f g. text_leb f.name g.name;
  bin_modules = codes "rest_config" ∷ [];
  has_secret = λ t. is_nil t;
}
