-- ===== src/Package/Views.antt =====
-- tools/validate_phase1.py: `check_app_conf` and `check_ui_views`.
pub mod Sticking
use app_datasource_validator.Prelude.{
  ℤ, pos, Bool, true, false, not, ◌&&◌, ◌||◌, Option, none, some, String, List, [], ◌∷◌, ◌++◌, map,
  all, any, keep, is_nil, leb_ℤ, or_else, if◌then◌else◌,
}
use app_datasource_validator.Text.{Text, codes, text_eq, mem_text}
use app_datasource_validator.Text.Search.{contains, split_on}
use app_datasource_validator.Json.{
  Json, null, boolean, number, text, array, object, Items, empty_array, item, Fields, empty_object,
  field, lookup, get_or, truthy, or_json,
}
use app_datasource_validator.Exec.{Result, ok, err, rest_error, pure, lift, for_each, ◌>>=◌, ◌>>◌}
use app_datasource_validator.Package.Conf.{Settings, Conf, setting, settings_of, stanza}
use app_datasource_validator.Package.Report.{Check, passed, fail, refuse_if}
use app_datasource_validator.Package.Tree.{Tree, load_conf}
use app_datasource_validator.Package.Authorize.{has_setting}
use app_datasource_validator.Package.Manifest.{is_text}

-- `launcher_version != manifest_version`
abbrev is_other_version : Json → Option Text → Bool
is_other_version version none = true
is_other_version version (some launcher) = not (is_text launcher version)

abbrev pub with_app_conf : Json → Option Conf → Check (Unit {0})
with_app_conf version none = pure tt
with_app_conf version (some conf) =
    let app_package = settings_of (codes "package") conf in
    let updates = codes "check_for_updates" in
    refuse_if
      (not
        (has_setting (codes "is_configured") (codes "false") (settings_of (codes "install") conf)))
      "is_configured must be false until setup completes" "is_configured = false"
    >> refuse_if
        (not (has_setting (codes "setup_view") (codes "setup") (settings_of (codes "ui") conf)))
        "setup_view must be 'setup'" "setup_view = setup"
    >> refuse_if (not (has_setting (codes "id") (codes "datasource_validator") app_package))
        "id must be 'datasource_validator'" "package id matches manifest name"
    >> refuse_if
        (not (
          has_setting updates (codes "true") app_package
          || has_setting updates (codes "1") app_package))
        "check_for_updates should be enabled" "check_for_updates enabled"
    >> refuse_if
        (truthy version
          && is_other_version version
              (setting (codes "version") (settings_of (codes "launcher") conf)))
        "version does not match app.manifest" "launcher version matches manifest version"

unfoldable pub check_app_conf : Tree → Json → Check (Unit {0})
unfolding load_conf stanza setting has_setting truthy is_text
check_app_conf tree version = load_conf tree (codes "default/app.conf") >>= with_app_conf version

abbrev pub view_path : Text → Text
view_path name = codes "default/data/ui/views/" ++ name ++ codes ".xml"

abbrev pub check_setup_view : Tree → Option Text → Check (Unit {0})
check_setup_view tree none = pure tt
check_setup_view tree (some view) =
    if is_nil view
    then pure tt
    else if tree.is_file (view_path view)
    then passed "setup_view has a matching view file"
    else fail "setup_view has no view file"

abbrev pub with_ui_conf : Tree → Option Conf → Check (Unit {0})
with_ui_conf tree none = pure tt
with_ui_conf tree (some conf) =
    check_setup_view tree (setting (codes "setup_view") (settings_of (codes "ui") conf))

-- The names of the views that the navigation has, where there is one and it is not empty.
abbrev pub named_views : List (Option Text) → List Text
named_views [] = []
named_views (none ∷ views) = named_views views
named_views (some name ∷ views) = (if is_nil name then [] else name ∷ []) ++ named_views views

abbrev pub check_view : Text × Bool → Check (Unit {0})
check_view (path, well_formed) =
    if not well_formed then fail "the view is not well-formed XML" else pure tt

unfoldable pub check_view_files : Tree → Check (Unit {0})
check_view_files tree =
    for_each tree.views check_view
    >> (if all (λ v. v.1) tree.views then passed "all view XML files are well-formed" else pure tt)

abbrev pub with_nav : Tree → Option (List (Option Text)) → Check (Unit {0})
with_nav tree none = fail "nav/default.xml: not well-formed XML"
with_nav tree (some views) =
    let view_names = named_views views in
    if is_nil view_names
    then fail "nav/default.xml: no <view> entries found"
    else (refuse_if (any (λ v. not (tree.is_file (view_path v))) view_names)
          "references views with no matching file" "all referenced views exist"
        >> check_view_files tree)

unfoldable pub check_ui_views : Tree → Check (Unit {0})
unfolding load_conf stanza setting check_view_files
check_ui_views tree =
    (load_conf tree (codes "default/app.conf") >>= with_ui_conf tree)
    >> (if tree.is_file (codes "default/data/ui/nav/default.xml")
        then with_nav tree tree.nav_views
        else fail "nav/default.xml is missing")
