-- ===== src/Package/Build/Stages.antt =====
-- The stages of the build, one after the other.
use app_datasource_validator.Prelude.{
  ◌≡◌, refl, ◌⊎◌, inl, inr, Bool, true, false, none, some, [], ◌∷◌, sort, arith,
}
use app_datasource_validator.Exec.{Error, Result, ok, err, pure, lift, modify, ◌>>=◌}
use app_datasource_validator.Package.Build.{
  Workspace, shippable_files, BuildReport, Build, stage, clean, subscript, given_manifest,
  package_app, if_ok, initial_report, ended,
}

-- The stages but the first, with the results of the scans given.
abbrev pub pipeline : Workspace → Result Bool → Bool → Result Bool → Build (Unit {0})
pipeline space a b c = do
  _ ← stage "clean" clean
  _ ← if_ok (stage "conf/XML/JSON lint + unit tests" (lift a))
  _ ← if_ok (stage "secret scan" (pure b))
  _ ← if_ok (stage "dependency scan" (lift c))
  if_ok (stage "stage + package .spl" (package_app space))

-- The exit code is 0 exactly where the archive is written, and then all the scans have passed.
abbrev pub Outcome :
    Workspace → Result Bool → Bool → Result Bool → Result (Unit {0}) × BuildReport → Type 0
Outcome space a b c later =
    ((ended later).0 ≡ 0
      → (a ≡ ok true)
        × (b ≡ true)
        × (c ≡ ok true)
        × ((ended later).1.archive ≡ some (sort space.path_le (shippable_files space))))
    × (((ended later).0 ≡ 0) ⊎ ((ended later).1.archive ≡ none))

stopped :
    (space : Workspace) (a : Result Bool) (b : Bool) (c : Result Bool)
    (later : Result (Unit {0}) × BuildReport)
    → (ended later).0 ≡ 1
    → (ended later).1.archive ≡ none
    → Outcome space a b c later
stopped space a b c later one empty = (λ h. absurd (omega (arith, one, h)), inr empty)

-- Packaging stops before it writes, or writes the archive of the files that ship.
abbrev Packaged : Workspace → BuildReport → Result Bool × BuildReport → Type 0
Packaged space r later =
    ((e : Error) × (later ≡ (err e, r)))
    ⊎ (later ≡ (ok true, record r { archive = some (sort space.path_le (shippable_files space)) }))

written :
    (space : Workspace) (r : BuildReport)
    → (modify (λ (r : BuildReport). record r {
      archive = some (sort space.path_le (shippable_files space));
    })
          >>= λ _. pure true)
        r
      ≡ (ok true, record r { archive = some (sort space.path_le (shippable_files space)) })
unfolding ◌>>=◌ modify pure
written space r = refl

module _ (space : Workspace) (r : BuildReport) where
  lift-Packaged :
      {A : Type 0} (x : Result A) (rest : A → Build Bool)
      → ((a : A) → Packaged space r (rest a r))
      → Packaged space r ((lift x >>= rest) r)
  unfolding ◌>>=◌ lift
  lift-Packaged (ok a) rest each = each a
  lift-Packaged (err e) rest each = inl (e, refl)

  package_app-Packaged : Packaged space r (package_app space r)
  unfolding package_app
  package_app-Packaged = lift-Packaged (given_manifest space.tree.manifest) _ (λ manifest.
      lift-Packaged (subscript "info" manifest) _ (λ info.
        lift-Packaged (subscript "id" info) _ (λ app_id.
          lift-Packaged (subscript "version" app_id) _ (λ version. inr (written space r)))))

last_stage :
    (space : Workspace) (r : BuildReport) (later : Result Bool × BuildReport)
    → r.all_passed ≡ true
    → r.archive ≡ none
    → Packaged space r later
    → package_app space r ≡ later
    → Outcome space (ok true) true (ok true) (stage "stage + package .spl" (package_app space) r)
unfolding stage ◌>>=◌ modify
last_stage space r later all empty (inl (e, fail)) eq =
    rw (eq, fail) (stopped space (ok true) true (ok true) (err e, r) refl empty)
last_stage space r later all empty (inr wrote) eq =
    rw (eq, wrote, all) (λ _. (refl, refl, refl, refl), inl refl)

pub pipeline-Outcome :
    (space : Workspace) (a : Result Bool) (b : Bool) (c : Result Bool)
    → Outcome space a b c (pipeline space a b c initial_report)
unfolding stage if_ok ◌>>=◌ pure lift modify
pipeline-Outcome space (err e) b c =
    stopped space (err e) b c (pipeline space (err e) b c initial_report) refl refl
pipeline-Outcome space (ok false) b c =
    stopped space (ok false) b c (pipeline space (ok false) b c initial_report) refl refl
pipeline-Outcome space (ok true) false c =
    stopped space (ok true) false c (pipeline space (ok true) false c initial_report) refl refl
pipeline-Outcome space (ok true) true (err e) =
    stopped space (ok true) true (err e) (pipeline space (ok true) true (err e) initial_report) refl
      refl
pipeline-Outcome space (ok true) true (ok false) =
    stopped space (ok true) true (ok false)
      (pipeline space (ok true) true (ok false) initial_report) refl refl
pipeline-Outcome space (ok true) true (ok true) =
    let before : BuildReport = record {
      stages =
          ("clean", true)
          ∷ ("conf/XML/JSON lint + unit tests", true)
          ∷ ("secret scan", true)
          ∷ ("dependency scan", true)
          ∷ [];
      all_passed = true;
      archive = none;
    } in
    last_stage space before _ refl refl (package_app-Packaged space before) refl
