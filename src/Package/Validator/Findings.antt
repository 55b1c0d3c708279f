-- ===== src/Package/Validator/Findings.antt =====
-- What a clean report tells of all the files: the checks of `main`, from the last to the first.
use app_datasource_validator.Prelude.{◌≡◌, Option, none, some, true, List, All, if◌then◌else◌}
use app_datasource_validator.Text.{Text}
use app_datasource_validator.Json.{Json}
use app_datasource_validator.Exec.{◌>>=◌}
use app_datasource_validator.Package.Report.{
  Check, passed, fail, Vouches, Vouches-bind, Vouches-passed, Vouches-fail, Vouches-if,
  Vouches-for_each, Vouches-weaken, Vouches-both, Vouches-Sticks, Sticks, sticks_rules,
}
use app_datasource_validator.Package.Tree.{
  Tree, required_files, check_required_files, check_no_placeholder_files,
}
use app_datasource_validator.Package.Authorize.{check_authorize}
use app_datasource_validator.Package.Authorize.LeastPrivilege.{Authorized, check_authorize-Vouches}
use app_datasource_validator.Package.Endpoints.{check_collections, check_restmap, check_inputs}
use app_datasource_validator.Package.Endpoints.Typed.{Collected, check_collections-Vouches}
use app_datasource_validator.Package.Endpoints.Gated.{Gated, check_restmap-Vouches}
use app_datasource_validator.Package.Endpoints.Dormant.{
  Dormant, check_inputs-Vouches, check_web-Sticks, check_props-Sticks,
}
use app_datasource_validator.Package.Access.{check_meta}
use app_datasource_validator.Package.Access.Covered.{
  Covered, check_meta-Vouches, check_transforms-Sticks,
}
use app_datasource_validator.Package.Views.{check_app_conf}
use app_datasource_validator.Package.Manifest.Sticking.{check_manifest-Sticks}
use app_datasource_validator.Package.Views.Sticking.{check_app_conf-Sticks, check_ui_views-Sticks}
use app_datasource_validator.Package.Sources.Harmless.{
  Parses, Harmless, Passes, check_python_syntax-Vouches, check_python_lint-Vouches,
  run_unit_tests-Vouches, check_placeholders-Sticks,
}
use app_datasource_validator.Package.Validator.{first_names, count_of, check_sources, check_rest}

abbrev pub HasFiles : Tree → Type 0
HasFiles tree = All (λ p. tree.is_file p ≡ true) required_files

pub check_required_files-Vouches :
    (tree : Tree) → Vouches (λ _. HasFiles tree) (check_required_files tree)
unfolding check_required_files
check_required_files-Vouches tree =
    Vouches-for_each required_files (λ path. if tree.is_file path then passed _ else fail _)
      (λ path.
        Vouches-if (tree.is_file path) _ _ (λ there. Vouches-passed _ there) (λ _. Vouches-fail _))

pub check_no_placeholder_files-Sticks : (tree : Tree) → Sticks (check_no_placeholder_files tree)
unfolding check_no_placeholder_files
check_no_placeholder_files-Sticks tree = search sticks_rules

check_sources-Vouches :
    (tree : Tree)
    → Vouches (λ _. Parses tree × Harmless tree × Passes tree.unit_tests) (check_sources tree)
unfolding check_sources
check_sources-Vouches tree =
    Vouches-weaken _ (λ _ p. (p.0.1, p.1.0.1, p.1.1))
      (Vouches-both _ _ (check_python_syntax-Vouches tree)
        (Vouches-both _ _ (check_python_lint-Vouches tree) (run_unit_tests-Vouches tree)))

check_authorize-Sticks : (tree : Tree) → Sticks (check_authorize tree)
check_authorize-Sticks tree = Vouches-Sticks _ (check_authorize-Vouches tree)

check_collections-Sticks : (tree : Tree) → Sticks (check_collections tree)
check_collections-Sticks tree = Vouches-Sticks _ (check_collections-Vouches tree)

check_restmap-Sticks : (tree : Tree) (caps : Option (List Text)) → Sticks (check_restmap tree caps)
check_restmap-Sticks tree caps = Vouches-Sticks _ (check_restmap-Vouches tree caps)

check_inputs-Sticks : (tree : Tree) → Sticks (check_inputs tree)
check_inputs-Sticks tree = Vouches-Sticks _ (check_inputs-Vouches tree)

check_meta-Sticks :
    (tree : Tree) (roles collections : Option (List Text))
    → Sticks (check_meta tree roles collections)
check_meta-Sticks tree roles collections =
    Vouches-Sticks _ (check_meta-Vouches tree roles collections)

check_sources-Sticks : (tree : Tree) → Sticks (check_sources tree)
check_sources-Sticks tree = Vouches-Sticks _ (check_sources-Vouches tree)

ruleset checks_stick = (
  check_no_placeholder_files-Sticks, check_manifest-Sticks, check_app_conf-Sticks,
  check_authorize-Sticks, check_collections-Sticks, check_restmap-Sticks, check_web-Sticks,
  check_inputs-Sticks, check_props-Sticks, check_ui_views-Sticks, check_transforms-Sticks,
  check_meta-Sticks, check_placeholders-Sticks, check_sources-Sticks,
)

-- What holds for a list of names that is there.
some_names :
    {A B : Type 0} (P : Option A → Type 0) {Q : B → Type 0} (rest : Option A → Check B)
    → (P none → ⊥)
    → ((a : A) → P (some a) → Vouches Q (rest (some a)))
    → (o : Option A) → P o
    → Vouches Q (rest o)
some_names P rest never each none p = absurd (never p)
some_names P rest never each (some a) p = each a p

check_rest-Vouches :
    (tree : Tree) (caps roles collections scripts : List Text)
    → Vouches
        (λ _.
          Dormant tree
          × Covered tree roles (some collections)
          × Parses tree
          × Harmless tree
          × Passes tree.unit_tests)
        (check_rest tree (some (caps, roles)) (some collections) (some scripts))
unfolding check_rest
check_rest-Vouches tree caps roles collections scripts =
    Vouches-weaken _
      (λ _ p.
        let sources = p.1.1.1.1.1.1.1 in
        (p.1.0.1, p.1.1.1.1.1.0.1, sources.0, sources.1, sources.2))
      (Vouches-both _ _ (check_web-Sticks tree (count_of (some scripts))) (
        Vouches-both _ _ (check_inputs-Vouches tree) (
          Vouches-both _ _ (check_props-Sticks tree) (
            Vouches-both _ _ (check_ui_views-Sticks tree) (
              Vouches-both _ _ (check_transforms-Sticks tree (some collections)) (
                Vouches-both _ _ (check_meta-Vouches tree (some roles) (some collections)) (
                  Vouches-both _ _ (check_placeholders-Sticks tree)
                    (check_sources-Vouches tree))))))))

check_rest-Sticks :
    (tree : Tree) (authorized : Option (List Text × List Text))
    (collections scripts : Option (List Text))
    → Sticks (check_rest tree authorized collections scripts)
unfolding check_rest
check_rest-Sticks tree authorized collections scripts = search (sticks_rules, checks_stick) depth 16

-- What the checks after those of authorize.conf and of collections.conf find.
abbrev pub Rest : Tree → List Text → List Text → List Text → Type 0
Rest tree caps roles collections =
    ((scripts : List Text) × Gated tree (some caps) (some scripts))
    × Dormant tree
    × Covered tree roles (some collections)
    × Parses tree
    × Harmless tree
    × Passes tree.unit_tests

with_restmap-Vouches :
    (tree : Tree) (caps roles collections : List Text)
    → Vouches
        (λ _. Rest tree caps roles collections)
        (check_restmap tree (some caps) >>= check_rest tree (some (caps, roles)) (some collections))
with_restmap-Vouches tree caps roles collections =
    Vouches-bind (check_restmap tree (some caps)) _ (check_restmap-Vouches tree (some caps))
      (check_rest-Sticks tree (some (caps, roles)) (some collections))
      (some_names (Gated tree (some caps)) (check_rest tree (some (caps, roles)) (some collections))
        (λ h. h)
        (λ scripts gated.
          Vouches-weaken _ (λ _ p. ((scripts, gated), p.0, p.1, p.2, p.3, p.4))
            (check_rest-Vouches tree caps roles collections scripts)))

unfoldable pub check_tail :
    Tree → Option (List Text × List Text) → Option (List Text) → Check (Unit {0})
check_tail tree authorized collections =
    check_restmap tree (first_names authorized) >>= check_rest tree authorized collections

check_tail-Sticks :
    (tree : Tree) (authorized : Option (List Text × List Text)) (collections : Option (List Text))
    → Sticks (check_tail tree authorized collections)
unfolding check_tail
check_tail-Sticks tree authorized collections =
    search (sticks_rules, check_restmap-Sticks, check_rest-Sticks)

with_collections-Vouches :
    (tree : Tree) (caps roles : List Text)
    → Vouches
        (λ _.
          (collections : List Text) × Collected tree (some collections)
          × Rest tree caps roles collections)
        (check_collections tree >>= check_tail tree (some (caps, roles)))
unfolding check_tail
with_collections-Vouches tree caps roles =
    Vouches-bind (check_collections tree) _ (check_collections-Vouches tree)
      (check_tail-Sticks tree (some (caps, roles)))
      (some_names (Collected tree) (check_tail tree (some (caps, roles))) (λ h. h)
        (λ collections collected.
          Vouches-weaken _ (λ _ p. (collections, collected, p))
            (with_restmap-Vouches tree caps roles collections)))

abbrev pub after_authorize : Tree → Option (List Text × List Text) → Check (Unit {0})
after_authorize tree authorized = check_collections tree >>= check_tail tree authorized

after_authorize-Sticks :
    (tree : Tree) (authorized : Option (List Text × List Text))
    → Sticks (after_authorize tree authorized)
after_authorize-Sticks tree authorized =
    search (sticks_rules, check_collections-Sticks, check_tail-Sticks)

abbrev pub after_manifest : Tree → Json → Check (Unit {0})
after_manifest tree version = do
  _ ← check_app_conf tree version
  authorized ← check_authorize tree
  after_authorize tree authorized

pub after_manifest-Sticks : (tree : Tree) (version : Json) → Sticks (after_manifest tree version)
after_manifest-Sticks tree version =
    search (sticks_rules, check_app_conf-Sticks, check_authorize-Sticks, after_authorize-Sticks)

-- What the checks after those of the manifest find.
abbrev pub Findings : Tree → Type 0
Findings tree =
    (caps : List Text) × (roles : List Text) × Authorized tree (some (caps, roles))
    × ((collections : List Text) × Collected tree (some collections)
        × Rest tree caps roles collections)

Authorized-Vouches :
    (tree : Tree) (authorized : Option (List Text × List Text))
    → Authorized tree authorized
    → Vouches (λ _. Findings tree) (after_authorize tree authorized)
Authorized-Vouches tree none h = absurd h
Authorized-Vouches tree (some (caps, roles)) h =
    Vouches-weaken _ (λ _ p. (caps, roles, h, p)) (with_collections-Vouches tree caps roles)

pub after_manifest-Vouches :
    (tree : Tree) (version : Json) → Vouches (λ _. Findings tree) (after_manifest tree version)
after_manifest-Vouches tree version =
    Vouches-weaken _ (λ _ p. p.1)
      (Vouches-both _ _ (check_app_conf-Sticks tree version) (
        Vouches-bind (check_authorize tree) (after_authorize tree) (check_authorize-Vouches tree)
          (after_authorize-Sticks tree) (Authorized-Vouches tree)))
