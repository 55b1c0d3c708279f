-- ===== src/Package/Manifest.antt =====
-- tools/validate_phase1.py: `check_manifest` and `_version_at_least`. A value of app.manifest that has
-- no method `get` or `lower` ends the run in an exception, `rest_error` here.
pub mod Sticking
use app_datasource_validator.Prelude.{
  ℤ, pos, Bool, true, false, not, ◌&&◌, ◌||◌, Option, none, some, String, List, [], ◌∷◌, ◌++◌, map,
  all, any, keep, is_nil, leb_ℤ, or_else, if◌then◌else◌,
}
use app_datasource_validator.Text.{Text, codes, text_eq, mem_text}
use app_datasource_validator.Text.Search.{contains, split_on}
use app_datasource_validator.Json.{
  Json, null, boolean, number, text, array, object, Items, empty_array, item, Fields, empty_object,
  field, lookup, get_or, truthy, or_json,
}
use app_datasource_validator.Exec.{Result, ok, err, rest_error, pure, lift, for_each, ◌>>=◌, ◌>>◌}
use app_datasource_validator.Package.Conf.{Settings, Conf, setting, settings_of, stanza}
use app_datasource_validator.Package.Report.{Check, passed, fail, refuse_if}
use app_datasource_validator.Package.Tree.{Tree, load_conf}
use app_datasource_validator.Package.Authorize.{has_setting}

-- The dict on which `get` is called.
unfoldable pub as_object : Json → Result Fields
as_object null = err rest_error
as_object (boolean b) = err rest_error
as_object (number n) = err rest_error
as_object (text s) = err rest_error
as_object (array xs) = err rest_error
as_object (object fields) = ok fields

-- The text on which `lower` or `split` is called.
unfoldable pub as_text : Json → Result Text
as_text null = err rest_error
as_text (boolean b) = err rest_error
as_text (number n) = err rest_error
as_text (text s) = ok (codes s)
as_text (array xs) = err rest_error
as_text (object fields) = err rest_error

-- `value == "..."`
unfoldable pub is_text : Text → Json → Bool
unfolding text_eq
is_text t null = false
is_text t (boolean b) = false
is_text t (number n) = false
is_text t (text s) = text_eq (codes s) t
is_text t (array xs) = false
is_text t (object fields) = false

-- `>=` on tuples of numbers
unfoldable pub tuple_geb : List ℤ → List ℤ → Bool
tuple_geb xs [] = true
tuple_geb [] (y ∷ ys) = false
tuple_geb (x ∷ xs) (y ∷ ys) = not (leb_ℤ x y) || leb_ℤ y x && tuple_geb xs ys

-- `tuple(int(x) for x in s.split(".") if x.isdigit())`, or nothing where `int` raises ValueError
abbrev numbers_of : (Text → Option ℤ) → List Text → Option (List ℤ)
numbers_of to_int [] = some []
numbers_of to_int (x ∷ xs) = elim (to_int x) [
  | none ↦ none
  | some n ↦ elim (numbers_of to_int xs) [ none ↦ none | some ns ↦ some (n ∷ ns) ]
]

abbrev version_parts : Tree → Text → Option (List ℤ)
version_parts tree s = numbers_of tree.to_int (keep tree.isdigit (split_on b'.' s))

abbrev compare_parts : Option (List ℤ) → Option (List ℤ) → Bool
compare_parts none minimum = false
compare_parts (some ns) none = false
compare_parts (some ns) (some minimum) = tuple_geb ns minimum

unfoldable pub version_at_least : Tree → Text → Text → Bool
unfolding tuple_geb
version_at_least tree version minimum =
    compare_parts (version_parts tree version) (version_parts tree minimum)

abbrev pub forbidden_targets : List Text
forbidden_targets = codes "_indexer_clustering" ∷ codes "_forwarder" ∷ []

-- `forbidden.intersection(deployments)` is not empty. An iterable of texts is compared; what cannot be
-- hashed, and what is no iterable, raises TypeError.
unfoldable pub forbidden_in : Items → Result Bool
unfolding mem_text
forbidden_in empty_array = ok false
forbidden_in (item (array xs) rest) = err rest_error
forbidden_in (item (object fields) rest) = err rest_error
forbidden_in (item (text s) rest) = elim (forbidden_in rest) [
  | ok bad ↦ ok (mem_text (codes s) forbidden_targets || bad)
  | err e ↦ err e
]
forbidden_in (item null rest) = forbidden_in rest
forbidden_in (item (boolean b) rest) = forbidden_in rest
forbidden_in (item (number n) rest) = forbidden_in rest

abbrev forbidden_keys : Fields → Bool
forbidden_keys empty_object = false
forbidden_keys (field key value rest) =
    mem_text (codes key) forbidden_targets || forbidden_keys rest

unfoldable pub has_forbidden : Json → Result Bool
unfolding forbidden_in mem_text
has_forbidden null = err rest_error
has_forbidden (boolean b) = err rest_error
has_forbidden (number n) = err rest_error
has_forbidden (text s) = ok false
has_forbidden (array xs) = forbidden_in xs
has_forbidden (object fields) = ok (forbidden_keys fields)

unfoldable pub check_license : Tree → Fields → Check (Unit {0})
unfolding get_or as_object as_text truthy contains
check_license tree info = do
  license ← lift (as_object (get_or "license" (object empty_object) info))
  name ← lift (as_text (or_json (get_or "name" null license) (text "")))
  refuse_if (not (contains (codes "apache") (tree.lower name)))
      "info.license.name should reference Apache License 2.0" "license is Apache 2.0"

abbrev pub is_too_old : Tree → Json → Result Bool
is_too_old tree enterprise =
    if truthy enterprise
    then (elim (as_text enterprise) [
      | ok version ↦ ok (not (version_at_least tree version (codes "9.3.0")))
      | err e ↦ err e
    ])
    else ok false

unfoldable pub check_platform : Tree → Json → Check (Unit {0})
unfolding get_or as_object as_text truthy version_at_least
check_platform tree null = passed "platformRequirements omitted"
check_platform tree requirements = do
  fields ← lift (as_object requirements)
  splunk ← lift (as_object (or_json (get_or "splunk" null fields) (object empty_object)))
  old ← lift (is_too_old tree (get_or "Enterprise" null splunk))
  refuse_if old "Enterprise must be >= 9.3.0" "platformRequirements declared and consistent"

unfoldable pub check_deployments : Fields → Check (Unit {0})
unfolding get_or has_forbidden truthy
check_deployments manifest = do
  bad ←
      lift
        (has_forbidden (or_json (get_or "supportedDeployments" null manifest) (array empty_array)))
  refuse_if bad "supportedDeployments includes non-SH-only targets"
      "supportedDeployments is SH-only"

unfoldable pub check_manifest_fields : Tree → Json → Check Json
unfolding get_or as_object is_text truthy check_license check_platform check_deployments
check_manifest_fields tree manifest = do
  fields ← lift (as_object manifest)
  _ ←
      refuse_if (not (is_text (codes "2.0.0") (get_or "schemaVersion" null fields)))
        "schemaVersion must be 2.0.0" "schemaVersion == 2.0.0"
  info ← lift (as_object (get_or "info" (object empty_object) fields))
  app_id ← lift (as_object (get_or "id" (object empty_object) info))
  _ ←
      refuse_if (not (is_text (codes "datasource_validator") (get_or "name" null app_id)))
        "info.id.name must be 'datasource_validator'" "info.id.name == datasource_validator"
  let version = get_or "version" null app_id
  _ ← refuse_if (not (truthy version)) "info.id.version is required" "info.id.version is there"
  _ ← check_license tree info
  _ ← check_platform tree (get_or "platformRequirements" null fields)
  _ ← check_deployments fields
  pure version

abbrev pub parsed_manifest : Tree → Option Json → Check Json
parsed_manifest tree none = fail "app.manifest: invalid JSON" >> pure null
parsed_manifest tree (some manifest) =
    passed "app.manifest: valid JSON" >> check_manifest_fields tree manifest

-- The version in app.manifest, null where there is none.
unfoldable pub check_manifest : Tree → Check Json
unfolding check_manifest_fields
check_manifest tree =
    if tree.is_file (codes "app.manifest")
    then parsed_manifest tree tree.manifest
    else fail "app.manifest missing" >> pure null
