-- ===== src/Package/Endpoints/Dormant.antt =====
-- What a clean report tells of inputs.conf; the checks of web.conf and props.conf keep the failures.
use app_datasource_validator.Prelude.{
  not-false, ℕ, ◌≡◌, Option, none, some, length, is_nil, ltb, All,
}
use app_datasource_validator.Text.{codes}
use app_datasource_validator.Package.Conf.{Stanza, Conf, setting}
use app_datasource_validator.Package.Report.{
  Vouches, Vouches-both, Vouches-fail, Vouches-if, Vouches-refuse_if, Vouches-for_each,
  Vouches-weaken, Vouches-Sticks, Sticks, Sticks-pure, Sticks-if, Sticks-warn, sticks_rules,
}
use app_datasource_validator.Package.Tree.{Tree}
use app_datasource_validator.Package.Tree.Loaded.{HasConf, with_conf-Vouches, with_conf-Sticks}
use app_datasource_validator.Package.Authorize.{stanzas_with}
use app_datasource_validator.Package.Authorize.LeastPrivilege.{has_setting→eq}
use app_datasource_validator.Package.Endpoints.{
  check_worker, check_workers, no_worker, with_inputs, check_inputs, check_exposed, with_web,
  check_web, with_props, check_props,
}

-- The worker's input is disabled until setup is done.
abbrev pub IsDisabled : Stanza → Type 0
IsDisabled s = setting (codes "disabled") s.settings ≡ some (codes "1")

check_worker-Vouches :
    (tree : Tree) (s : Stanza) → Vouches (λ _. IsDisabled s) (check_worker tree s)
unfolding check_worker
check_worker-Vouches tree s =
    Vouches-weaken _ (λ _ p. p.0.1)
      (Vouches-both _ _
        (Vouches-refuse_if _ _ _
          (λ h. has_setting→eq (codes "disabled") (codes "1") s.settings (not-false _ h)))
        (Vouches-refuse_if {P = λ _. Unit {0}} _ _ _ (λ _. tt)))

abbrev pub Dormant : Tree → Type 0
Dormant tree =
    (conf : Conf) × HasConf tree (codes "default/inputs.conf") conf
    × All (λ s. IsDisabled s) (stanzas_with (codes "dsv_validation_worker://") conf)

check_workers-Vouches :
    (tree : Tree) (workers : Conf)
    → Vouches (λ _. All (λ s. IsDisabled s) workers) (check_workers tree workers)
unfolding check_workers
check_workers-Vouches tree workers =
    Vouches-weaken _ (λ _ p. p.1)
      (Vouches-both _ _ (Sticks-if (ltb 1 (length workers)) _ _ (Sticks-warn _) (Sticks-pure tt))
        (Vouches-for_each workers (check_worker tree) (check_worker-Vouches tree)))

inputs-Vouches :
    (tree : Tree) (conf : Conf)
    → Vouches
        (λ _. All (λ s. IsDisabled s) (stanzas_with (codes "dsv_validation_worker://") conf))
        (with_inputs tree (some conf))
inputs-Vouches tree conf =
    let workers = stanzas_with (codes "dsv_validation_worker://") conf in
    Vouches-if (is_nil workers) no_worker (check_workers tree workers) (λ _. Vouches-fail _)
      (λ _. check_workers-Vouches tree workers)

inputs-Sticks : (tree : Tree) (c : Option Conf) → Sticks (with_inputs tree c)
inputs-Sticks tree none = Sticks-pure tt
inputs-Sticks tree (some conf) = Vouches-Sticks _ (inputs-Vouches tree conf)

pub check_inputs-Vouches : (tree : Tree) → Vouches (λ _. Dormant tree) (check_inputs tree)
unfolding check_inputs
check_inputs-Vouches tree =
    with_conf-Vouches tree (codes "default/inputs.conf") (with_inputs tree) (inputs-Sticks tree)
      (λ conf has. Vouches-weaken _ (λ _ all. (conf, has, all)) (inputs-Vouches tree conf))

web-Sticks : (count : Option ℕ) (c : Option Conf) → Sticks (with_web count c)
unfolding check_exposed
web-Sticks count none = Sticks-pure tt
web-Sticks count (some conf) = search sticks_rules

pub check_web-Sticks : (tree : Tree) (count : Option ℕ) → Sticks (check_web tree count)
unfolding check_web
check_web-Sticks tree count =
    with_conf-Sticks tree (codes "default/web.conf") (with_web count) (web-Sticks count)

props-Sticks : (c : Option Conf) → Sticks (with_props c)
props-Sticks none = Sticks-pure tt
props-Sticks (some conf) = search sticks_rules

pub check_props-Sticks : (tree : Tree) → Sticks (check_props tree)
unfolding check_props
check_props-Sticks tree = with_conf-Sticks tree (codes "default/props.conf") with_props props-Sticks
