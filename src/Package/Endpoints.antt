-- ===== src/Package/Endpoints.antt =====
-- tools/validate_phase1.py: the checks of the KV Store collections, of the REST endpoints, of what
-- Splunk Web exposes, of the modular input and of the log's source type.
pub mod Typed
pub mod Gated
pub mod Dormant
use app_datasource_validator.Prelude.{
  ℕ, Bool, true, false, not, ◌&&◌, ◌||◌, Option, none, some, List, [], ◌∷◌, ◌++◌, map, keep, length,
  all, any, is_nil, is_some, eqb, ltb, or_else, if◌then◌else◌,
}
use app_datasource_validator.Text.{Text, codes, text_eq, mem_text, frozenset}
use app_datasource_validator.Text.Search.{starts_with, drop_prefix, before}
use app_datasource_validator.Exec.{pure, for_each, ◌>>=◌, ◌>>◌}
use app_datasource_validator.Package.Conf.{Settings, Stanza, Conf, setting, stanza, names}
use app_datasource_validator.Package.Report.{Check, passed, warn, fail, refuse_if}
use app_datasource_validator.Package.Tree.{Tree, load_conf}
use app_datasource_validator.Package.Authorize.{has_setting, stanzas_with}

-- `{k: v for k, v in settings.items() if k.startswith(prefix)}`
unfoldable pub settings_with : Text → Settings → Settings
unfolding starts_with
settings_with prefix settings = keep (λ s. starts_with prefix s.0) settings

abbrev pub field_types : List Text
field_types = map codes ("string" ∷ "number" ∷ "bool" ∷ "time" ∷ "cidr" ∷ [])

unfoldable pub check_field : Text × Text → Check (Unit {0})
unfolding mem_text
check_field (key, type) =
    if not (mem_text type field_types) then fail "the field has an unknown type" else pure tt

unfoldable pub check_collection : Stanza → Check (Unit {0})
unfolding settings_with check_field
check_collection s =
    let fields = settings_with (codes "field.") s.settings in
    (if is_nil fields then fail "the collection declares no typed fields" else pure tt)
    >> for_each fields check_field

abbrev pub with_collections : Option Conf → Check (Option (List Text))
with_collections none = pure none
with_collections (some conf) =
    refuse_if (not (eqb (length conf) 7)) "expected 7 collections" "7 collections defined"
    >> for_each conf check_collection
    >> passed "all collections declare typed fields"
    >> pure (some (names conf))

unfoldable pub check_collections : Tree → Check (Option (List Text))
unfolding load_conf check_collection
check_collections tree = load_conf tree (codes "default/collections.conf") >>= with_collections

-- A method's capability is one that authorize.conf defines, where that file could be read.
unfoldable pub check_method : Option (List Text) → Text × Text → Check (Unit {0})
unfolding mem_text
check_method none method = pure tt
check_method (some caps) (method, cap) =
    if not (mem_text cap caps) then fail "not a capability defined in authorize.conf" else pure tt

abbrev pub method_capabilities : Stanza → Settings
method_capabilities s = settings_with (codes "capability.") s.settings

unfoldable pub check_methods : Option (List Text) → Stanza → Check (Unit {0})
unfolding settings_with check_method
check_methods caps s = for_each (method_capabilities s) (check_method caps)

abbrev pub script_of : Stanza → Text
script_of s = or_else (setting (codes "script") s.settings) []

unfoldable pub check_script : Stanza → Check (Unit {0})
unfolding setting
check_script s = if is_nil (script_of s) then fail "no 'script' key" else pure tt

abbrev pub script_path : Stanza → Text
script_path s = codes "bin/" ++ script_of s

unfoldable pub lacks_script : Tree → Stanza → Bool
unfolding setting
lacks_script tree s = not (is_nil (script_of s)) && not (tree.is_file (script_path s))

unfoldable pub passes_system_auth : Stanza → Bool
unfolding has_setting
passes_system_auth s = not (has_setting (codes "passSystemAuth") (codes "false") s.settings)

unfoldable pub is_ungated : Stanza → Bool
unfolding settings_with
is_ungated s = is_nil (method_capabilities s)

abbrev pub with_restmap : Tree → Option (List Text) → Option Conf → Check (Option (List Text))
with_restmap tree caps none = pure none
with_restmap tree caps (some conf) =
    let scripts = stanzas_with (codes "script:") conf in
    refuse_if (not (eqb (length scripts) 11)) "expected 11 REST endpoints"
      "11 REST endpoints defined"
    >> for_each scripts (check_methods caps)
    >> refuse_if (any passes_system_auth scripts) "endpoints must set passSystemAuth = false"
        "all endpoints require authentication"
    >> refuse_if (any is_ungated scripts) "endpoints missing per-method capability gating"
        "all endpoints are capability-gated"
    >> for_each scripts check_script
    >> refuse_if (any (lacks_script tree) scripts) "script files missing from bin/"
        "every endpoint's script file exists"
    >> pure (some (names scripts))

unfoldable pub check_restmap : Tree → Option (List Text) → Check (Option (List Text))
unfolding load_conf check_methods passes_system_auth is_ungated check_script lacks_script
    stanzas_with
check_restmap tree caps = load_conf tree (codes "default/restmap.conf") >>= with_restmap tree caps

unfoldable pub check_exposed : Stanza → Check (Unit {0})
unfolding setting
check_exposed s =
    (if not (is_some (setting (codes "pattern") s.settings))
      then fail "missing 'pattern'"
      else pure tt)
    >> (if not (is_some (setting (codes "methods") s.settings))
        then fail "missing 'methods'"
        else pure tt)

-- The number of endpoints is compared where restmap.conf could be read.
abbrev pub differs : ℕ → Option ℕ → Bool
differs n none = false
differs n (some m) = not (eqb n m)

abbrev pub with_web : Option ℕ → Option Conf → Check (Unit {0})
with_web count none = pure tt
with_web count (some conf) =
    let exposed = stanzas_with (codes "expose:") conf in
    refuse_if (differs (length exposed) count) "every endpoint must be exposed to Splunk Web"
      "expose stanzas match restmap.conf"
    >> for_each exposed check_exposed

unfoldable pub check_web : Tree → Option ℕ → Check (Unit {0})
unfolding load_conf check_exposed stanzas_with
check_web tree count = load_conf tree (codes "default/web.conf") >>= with_web count

-- The name starts with the scheme, so what stands before `://` ends at its first colon.
unfoldable pub check_worker : Tree → Stanza → Check (Unit {0})
unfolding has_setting
check_worker tree s =
    refuse_if (not (has_setting (codes "disabled") (codes "1") s.settings))
      "must be disabled = 1 until setup completes" "disabled until setup"
    >> refuse_if (not (tree.is_file (codes "bin/" ++ before b':' s.name ++ codes ".py")))
        "no matching modular input script" "modular input script exists"

unfoldable pub check_workers : Tree → Conf → Check (Unit {0})
unfolding check_worker
check_workers tree workers =
    (if ltb 1 (length workers) then warn "multiple worker stanzas defined" else pure tt)
    >> for_each workers (check_worker tree)

abbrev pub no_worker : Check (Unit {0})
no_worker = fail "no dsv_validation_worker:// stanza found"

abbrev pub with_inputs : Tree → Option Conf → Check (Unit {0})
with_inputs tree none = pure tt
with_inputs tree (some conf) =
    let workers = stanzas_with (codes "dsv_validation_worker://") conf in
    if is_nil workers then no_worker else check_workers tree workers

unfoldable pub check_inputs : Tree → Check (Unit {0})
unfolding load_conf check_workers stanzas_with
check_inputs tree = load_conf tree (codes "default/inputs.conf") >>= with_inputs tree

-- The source types that are named and not empty, each once.
unfoldable pub source_types : Conf → List Text
unfolding setting frozenset
source_types conf =
    keep (λ t. not (is_nil t))
      (frozenset (map (λ s. or_else (setting (codes "sourcetype") s.settings) []) conf))

abbrev pub with_props : Option Conf → Check (Unit {0})
with_props none = pure tt
with_props (some conf) =
    let sources = stanzas_with (codes "source::") conf in
    refuse_if (is_nil sources) "no source:: stanza" "source:: stanza present"
    >> refuse_if (any (λ t. not (is_some (stanza t conf))) (source_types sources))
        "source:: stanza references missing sourcetypes" "referenced sourcetypes are defined"

unfoldable pub check_props : Tree → Check (Unit {0})
unfolding load_conf source_types stanza stanzas_with
check_props tree = load_conf tree (codes "default/props.conf") >>= with_props
