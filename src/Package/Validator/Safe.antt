-- ===== src/Package/Validator/Safe.antt =====
-- What exit code 0 of the validator tells of the app that it has checked.
use app_datasource_validator.Prelude.{
  is_nil→eq, ◌≡◌, refl, subst, arith, inl, inr, Bool-cases, some, List, [], is_nil,
}
use app_datasource_validator.Text.{Text}
use app_datasource_validator.Exec.{Result, ok, err}
use app_datasource_validator.Package.Report.{
  Report, Clean, Vouches, Vouches-bind, Vouches-weaken, Vouches-both,
}
use app_datasource_validator.Package.Tree.{Tree}
use app_datasource_validator.Package.Authorize.LeastPrivilege.{Authorized}
use app_datasource_validator.Package.Endpoints.Typed.{Collected}
use app_datasource_validator.Package.Endpoints.Gated.{Gated}
use app_datasource_validator.Package.Endpoints.Dormant.{Dormant}
use app_datasource_validator.Package.Access.Covered.{Covered}
use app_datasource_validator.Package.Manifest.{check_manifest}
use app_datasource_validator.Package.Manifest.Sticking.{check_manifest-Sticks}
use app_datasource_validator.Package.Sources.Harmless.{Parses, Harmless, Passes}
use app_datasource_validator.Package.Validator.{check_all, exit_code_of, empty_report, main}
use app_datasource_validator.Package.Validator.Findings.{
  HasFiles, check_required_files-Vouches, check_no_placeholder_files-Sticks, Findings, check_tail,
  after_manifest, after_manifest-Sticks, after_manifest-Vouches,
}

-- What the checks find together, each in the words of its module.
pub record IsSafe (tree : Tree) : Type 0 where
  pub files : HasFiles tree
  pub capabilities : List Text
  pub roles : List Text
  pub authorized : Authorized tree (some (capabilities, roles))
  pub collections : List Text
  pub collected : Collected tree (some collections)
  pub scripts : List Text
  pub gated : Gated tree (some capabilities) (some scripts)
  pub dormant : Dormant tree
  pub covered : Covered tree roles (some collections)
  pub parses : Parses tree
  pub harmless : Harmless tree
  pub passes : Passes tree.unit_tests

safe : (tree : Tree) → HasFiles tree → Findings tree → IsSafe tree
safe tree files
      (
        caps,
        roles,
        authorized,
        (collections, collected, ((scripts, gated), dormant, covered, parses, harmless, passes)),
      ) =
    record {
      files = files;
      capabilities = caps;
      roles = roles;
      authorized = authorized;
      collections = collections;
      collected = collected;
      scripts = scripts;
      gated = gated;
      dormant = dormant;
      covered = covered;
      parses = parses;
      harmless = harmless;
      passes = passes;
    }

check_all-IsSafe : (tree : Tree) → Vouches (λ _. IsSafe tree) (check_all tree)
unfolding check_all check_tail
check_all-IsSafe tree =
    Vouches-weaken _ (λ _ p. safe tree p.0.1 p.1.1)
      (Vouches-both _ _ (check_required_files-Vouches tree) (
        Vouches-both _ _ (check_no_placeholder_files-Sticks tree) (
          Vouches-bind (check_manifest tree) (after_manifest tree) (check_manifest-Sticks tree)
            (after_manifest-Sticks tree) (λ version _. after_manifest-Vouches tree version))))

ended_well :
    (tree : Tree) (later : Result (Unit {0}) × Report)
    → ((r : Report) → (later ≡ (ok tt, r)) → r.failures ≡ [] → IsSafe tree)
    → exit_code_of later ≡ 0
    → IsSafe tree
ended_well tree (err e, r) safe h = absurd (omega (arith, h))
ended_well tree (ok u, r) safe h = elim (Bool-cases (is_nil r.failures)) [
  | inl clean ↦ safe r refl (is_nil→eq r.failures clean)
  | inr dirty ↦ absurd (omega (arith, (rw dirty at h)))
]

-- If the package validator ends with exit code 0, then the app is safe: the required files are
-- there; the service's role in authorize.conf imports no role, runs no real-time search, has none
-- of the app's capabilities enabled and has a list of indexes that is neither empty nor `*`, and
-- no role of the app has admin_all_objects enabled; every endpoint of restmap.conf does not pass
-- system authentication, has at least one capability for its methods, all of them defined in
-- authorize.conf, and a script that is there; every collection declares fields, all of known
-- types, and has a stanza in default.meta, which has none for another collection; no access list
-- there names admin_all_objects or, where authorize.conf defines roles of people, any other role;
-- the worker's input is disabled; the Python files under bin/ and tools/ parse, and none under
-- bin/ imports or calls, under the names that are looked for, what starts a process; and the unit
-- tests pass, where there are some.
pub main-IsSafe : (tree : Tree) → main tree ≡ 0 → IsSafe tree
unfolding main
main-IsSafe tree h =
    ended_well tree (check_all tree empty_report)
      (λ r e clean.
        (subst (Clean (λ _. IsSafe tree) empty_report) e ((check_all-IsSafe tree).from empty_report)
          clean).1)
      h
