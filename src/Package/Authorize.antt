-- ===== src/Package/Authorize.antt =====
-- tools/validate_phase1.py: `check_authorize`. Its inner loop over the roles has an `else` that no
-- `break` skips, so the last pass is written in any case.
pub mod LeastPrivilege
use app_datasource_validator.Prelude.{
  Bool, true, false, not, ◌&&◌, ◌||◌, Option, none, some, List, [], ◌∷◌, map, keep, length, is_nil,
  is_some, eqb, or_else, if◌then◌else◌,
}
use app_datasource_validator.Text.{Text, codes, text_eq, mem_text, strip, frozenset}
use app_datasource_validator.Text.Search.{starts_with, drop_prefix}
use app_datasource_validator.Exec.{pure, for_each, ◌>>=◌, ◌>>◌}
use app_datasource_validator.Package.Conf.{Settings, Stanza, Conf, setting, stanza}
use app_datasource_validator.Package.Report.{Check, passed, fail, refuse_if}
use app_datasource_validator.Package.Tree.{Tree, load_conf}

-- `stanza.get(key) == value`
unfoldable pub has_setting : Text → Text → Settings → Bool
unfolding setting text_eq
has_setting key value settings = elim (setting key settings) [
  | none ↦ false
  | some v ↦ text_eq v value
]

-- The stanzas whose names start with a prefix.
unfoldable pub stanzas_with : Text → Conf → Conf
unfolding starts_with
stanzas_with prefix conf = keep (λ s. starts_with prefix s.name) conf

abbrev pub service_role : Text
service_role = codes "role_dsv_service"

unfoldable pub capability_names : Conf → List Text
unfolding stanzas_with frozenset
capability_names conf = frozenset (
    map (λ s. drop_prefix (codes "capability::") s.name) (stanzas_with (codes "capability::") conf))

unfoldable pub human_role_names : Conf → List Text
unfolding stanzas_with text_eq frozenset
human_role_names conf = frozenset (
    map (λ s. drop_prefix (codes "role_") s.name)
      (keep (λ s. not (text_eq s.name service_role)) (stanzas_with (codes "role_") conf)))

unfoldable pub imports_roles : Settings → Bool
unfolding setting strip
imports_roles svc = not (is_nil (strip (or_else (setting (codes "importRoles") svc) [])))

-- `svc.get("srchIndexesAllowed") in (None, "", "*")`
unfoldable pub has_no_index_list : Settings → Bool
unfolding setting text_eq
has_no_index_list svc = elim (setting (codes "srchIndexesAllowed") svc) [
  | none ↦ true
  | some v ↦ is_nil v || text_eq v (codes "*")
]

unfoldable pub enabled_capabilities : List Text → Settings → List Text
unfolding has_setting
enabled_capabilities caps svc = keep (λ c. has_setting c (codes "enabled") svc) caps

unfoldable pub check_service : List Text → Settings → Check (Unit {0})
check_service caps svc =
    refuse_if (imports_roles svc) "role_dsv_service must not importRoles"
      "dsv_service imports no roles"
    >> refuse_if (not (has_setting (codes "rtSrchJobsQuota") (codes "0") svc))
        "role_dsv_service must set rtSrchJobsQuota = 0" "dsv_service has real-time search off"
    >> refuse_if (not (is_nil (enabled_capabilities caps svc)))
        "role_dsv_service must not hold any admin/app capability"
        "dsv_service holds no app capabilities"
    >> refuse_if (has_no_index_list svc)
        "role_dsv_service.srchIndexesAllowed must be an explicit index list"
        "dsv_service has an explicit srchIndexesAllowed"

unfoldable pub check_service_role : List Text → Option Settings → Check (Unit {0})
unfolding check_service
check_service_role caps none = fail "role_dsv_service is required"
check_service_role caps (some svc) = check_service caps svc

unfoldable pub check_role : Stanza → Check (Unit {0})
unfolding has_setting
check_role role =
    if has_setting (codes "admin_all_objects") (codes "enabled") role.settings
    then fail "violates the no-admin_all_objects rule"
    else pure tt

unfoldable pub check_authorize_conf : Conf → Check (List Text × List Text)
unfolding stanzas_with capability_names human_role_names stanza check_service_role check_role
check_authorize_conf conf =
    let caps = stanzas_with (codes "capability::") conf in
    let roles = stanzas_with (codes "role_") conf in
    refuse_if (not (eqb (length caps) 4)) "expected 4 capabilities" "4 capabilities defined"
    >> refuse_if (not (eqb (length roles) 4)) "expected 4 roles" "4 roles defined"
    >> check_service_role (capability_names conf) (stanza service_role conf)
    >> for_each roles check_role
    >> passed "no role enables admin_all_objects"
    >> pure (capability_names conf, human_role_names conf)

abbrev pub with_authorize : Option Conf → Check (Option (List Text × List Text))
with_authorize none = pure none
with_authorize (some conf) = check_authorize_conf conf >>= λ names. pure (some names)

-- The names of the capabilities and of the roles of people, where the file can be read.
unfoldable pub check_authorize : Tree → Check (Option (List Text × List Text))
unfolding load_conf check_authorize_conf
check_authorize tree = load_conf tree (codes "default/authorize.conf") >>= with_authorize
