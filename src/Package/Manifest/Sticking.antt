-- ===== src/Package/Manifest/Sticking.antt =====
-- The checks of app.manifest leave the failures that are in the report.
use app_datasource_validator.Prelude.{Option, none, some}
use app_datasource_validator.Json.{Json, null, boolean, number, text, array, object, Fields}
use app_datasource_validator.Package.Report.{Sticks, Sticks-passed, sticks_rules}
use app_datasource_validator.Package.Tree.{Tree}
use app_datasource_validator.Package.Manifest.{
  check_license, check_platform, check_deployments, check_manifest_fields, parsed_manifest,
  check_manifest,
}

check_license-Sticks : (tree : Tree) (info : Fields) → Sticks (check_license tree info)
unfolding check_license
check_license-Sticks tree info = search sticks_rules

check_platform-Sticks :
    (tree : Tree) (requirements : Json) → Sticks (check_platform tree requirements)
unfolding check_platform
check_platform-Sticks tree null = Sticks-passed _
check_platform-Sticks tree (boolean b) = search sticks_rules
check_platform-Sticks tree (number n) = search sticks_rules
check_platform-Sticks tree (text s) = search sticks_rules
check_platform-Sticks tree (array xs) = search sticks_rules
check_platform-Sticks tree (object fields) = search sticks_rules

check_deployments-Sticks : (manifest : Fields) → Sticks (check_deployments manifest)
unfolding check_deployments
check_deployments-Sticks manifest = search sticks_rules

check_manifest_fields-Sticks :
    (tree : Tree) (manifest : Json) → Sticks (check_manifest_fields tree manifest)
unfolding check_manifest_fields
check_manifest_fields-Sticks tree manifest =
    search (sticks_rules, check_license-Sticks, check_platform-Sticks, check_deployments-Sticks)
      depth 16

parsed_manifest-Sticks : (tree : Tree) (m : Option Json) → Sticks (parsed_manifest tree m)
parsed_manifest-Sticks tree none = search sticks_rules
parsed_manifest-Sticks tree (some manifest) = search (sticks_rules, check_manifest_fields-Sticks)

pub check_manifest-Sticks : (tree : Tree) → Sticks (check_manifest tree)
unfolding check_manifest
check_manifest-Sticks tree = search (sticks_rules, parsed_manifest-Sticks)
