-- ===== src/Package/Views/Sticking.antt =====
-- The checks of app.conf and of the views leave the failures that are in the report.
use app_datasource_validator.Prelude.{Bool, Option, none, some, List}
use app_datasource_validator.Text.{Text, codes}
use app_datasource_validator.Json.{Json}
use app_datasource_validator.Package.Conf.{Conf}
use app_datasource_validator.Package.Report.{
  Sticks, Sticks-pure, Sticks-fail, Sticks-bind, sticks_rules,
}
use app_datasource_validator.Package.Tree.{Tree}
use app_datasource_validator.Package.Tree.Loaded.{with_conf-Sticks}
use app_datasource_validator.Package.Views.{
  with_app_conf, check_app_conf, check_setup_view, with_ui_conf, check_view, check_view_files,
  with_nav, check_ui_views,
}

app_conf-Sticks : (version : Json) (c : Option Conf) → Sticks (with_app_conf version c)
app_conf-Sticks version none = Sticks-pure tt
app_conf-Sticks version (some conf) = search sticks_rules

pub check_app_conf-Sticks : (tree : Tree) (version : Json) → Sticks (check_app_conf tree version)
unfolding check_app_conf
check_app_conf-Sticks tree version =
    with_conf-Sticks tree (codes "default/app.conf") (with_app_conf version)
      (app_conf-Sticks version)

setup_view-Sticks : (tree : Tree) (view : Option Text) → Sticks (check_setup_view tree view)
setup_view-Sticks tree none = Sticks-pure tt
setup_view-Sticks tree (some view) = search sticks_rules

ui_conf-Sticks : (tree : Tree) (c : Option Conf) → Sticks (with_ui_conf tree c)
ui_conf-Sticks tree none = Sticks-pure tt
ui_conf-Sticks tree (some conf) = setup_view-Sticks tree _

check_view-Sticks : (v : Text × Bool) → Sticks (check_view v)
check_view-Sticks (path, well_formed) = search sticks_rules

check_view_files-Sticks : (tree : Tree) → Sticks (check_view_files tree)
unfolding check_view_files
check_view_files-Sticks tree = search (sticks_rules, check_view-Sticks)

nav-Sticks : (tree : Tree) (views : Option (List (Option Text))) → Sticks (with_nav tree views)
nav-Sticks tree none = Sticks-fail _
nav-Sticks tree (some views) = search (sticks_rules, check_view_files-Sticks)

pub check_ui_views-Sticks : (tree : Tree) → Sticks (check_ui_views tree)
unfolding check_ui_views
check_ui_views-Sticks tree =
    Sticks-bind _ _
      (with_conf-Sticks tree (codes "default/app.conf") (with_ui_conf tree) (ui_conf-Sticks tree))
      (λ _. search (sticks_rules, nav-Sticks))
