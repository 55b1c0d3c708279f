-- ===== src/Package/Endpoints/Gated.antt =====
-- What a clean report tells of restmap.conf.
use app_datasource_validator.Prelude.{
  not-false, ◌≡◌, refl, true, false, Option, none, some, List, [], ◌∷◌, is_nil, All, any→All,
}
use app_datasource_validator.Text.{Text, codes}
use app_datasource_validator.Text.Equality.{In, mem_text→In}
use app_datasource_validator.Exec.{pure}
use app_datasource_validator.Package.Conf.{Stanza, Conf, names, setting}
use app_datasource_validator.Package.Report.{
  Vouches, Vouches-bind, Vouches-both, Vouches-pure, Vouches-fail, Vouches-if, Vouches-refuse_if,
  Vouches-for_each, Vouches-weaken, Vouches-Sticks, Sticks, Sticks-pure,
}
use app_datasource_validator.Package.Tree.{Tree}
use app_datasource_validator.Package.Tree.Loaded.{HasConf, with_conf-Vouches}
use app_datasource_validator.Package.Authorize.{stanzas_with}
use app_datasource_validator.Package.Authorize.LeastPrivilege.{has_setting→eq}
use app_datasource_validator.Package.Endpoints.{
  check_method, method_capabilities, check_methods, script_of, check_script, script_path,
  lacks_script, passes_system_auth, is_ungated, with_restmap, check_restmap,
}

-- A capability that authorize.conf defines, where its names are known.
abbrev pub IsDefined : Option (List Text) → Text → Type 0
IsDefined none cap = Unit
IsDefined (some caps) cap = In cap caps

-- An endpoint asks for authentication and, for each of its methods, of which there is one, for a
-- capability that is defined; its script is there.
pub record IsGated (tree : Tree) (caps : Option (List Text)) (s : Stanza) : Type 0 where
  pub authenticated : setting (codes "passSystemAuth") s.settings ≡ some (codes "false")
  pub is_gated : is_nil (method_capabilities s) ≡ false
  pub defined : All (λ m. IsDefined caps m.1) (method_capabilities s)
  pub script : is_nil (script_of s) ≡ false
  pub is_there : tree.is_file (script_path s) ≡ true

check_method-Vouches :
    (caps : Option (List Text)) (m : Text × Text)
    → Vouches (λ _. IsDefined caps m.1) (check_method caps m)
unfolding check_method
check_method-Vouches none m = Vouches-pure tt tt
check_method-Vouches (some caps) (method, cap) =
    Vouches-if _ _ _ (λ _. Vouches-fail _)
      (λ known. Vouches-pure tt (mem_text→In cap caps (not-false _ known)))

check_methods-Vouches :
    (caps : Option (List Text)) (s : Stanza)
    → Vouches (λ _. All (λ m. IsDefined caps m.1) (method_capabilities s)) (check_methods caps s)
unfolding check_methods
check_methods-Vouches caps s =
    Vouches-for_each (method_capabilities s) (check_method caps) (check_method-Vouches caps)

check_script-Vouches : (s : Stanza) → Vouches (λ _. is_nil (script_of s) ≡ false) (check_script s)
unfolding check_script
check_script-Vouches s = Vouches-if _ _ _ (λ _. Vouches-fail _) (λ there. Vouches-pure tt there)

gated :
    (tree : Tree) (caps : Option (List Text)) (s : Stanza)
    → All (λ m. IsDefined caps m.1) (method_capabilities s)
    → passes_system_auth s ≡ false
    → is_ungated s ≡ false
    → is_nil (script_of s) ≡ false
    → lacks_script tree s ≡ false
    → IsGated tree caps s
unfolding passes_system_auth is_ungated lacks_script
gated tree caps s defined auth gate script there = record {
  authenticated =
      has_setting→eq (codes "passSystemAuth") (codes "false") s.settings (not-false _ auth);
  is_gated = gate;
  defined = defined;
  script = script;
  is_there = not-false _ (rw script at there);
}

abbrev pub Gated : Tree → Option (List Text) → Option (List Text) → Type 0
Gated tree caps none = ⊥
Gated tree caps (some scripts) =
    (conf : Conf) × HasConf tree (codes "default/restmap.conf") conf
    × (scripts ≡ names (stanzas_with (codes "script:") conf))
    × All (λ s. IsGated tree caps s) (stanzas_with (codes "script:") conf)

all-IsGated :
    (tree : Tree) (caps : Option (List Text)) (scripts : Conf)
    → All (λ s. All (λ m. IsDefined caps m.1) (method_capabilities s)) scripts
    → All (λ s. passes_system_auth s ≡ false) scripts
    → All (λ s. is_ungated s ≡ false) scripts
    → All (λ s. is_nil (script_of s) ≡ false) scripts
    → All (λ s. lacks_script tree s ≡ false) scripts
    → All (λ s. IsGated tree caps s) scripts
all-IsGated tree caps [] ds auths gs ss ls = tt
all-IsGated tree caps (s ∷ scripts) (d, ds) (a, auths) (g, gs) (n, ss) (l, ls) =
    (gated tree caps s d a g n l, all-IsGated tree caps scripts ds auths gs ss ls)

restmap-Vouches :
    (tree : Tree) (caps : Option (List Text)) (conf : Conf)
    → Vouches
        (λ c.
          (c ≡ some (names (stanzas_with (codes "script:") conf)))
          × All (λ s. IsGated tree caps s) (stanzas_with (codes "script:") conf))
        (with_restmap tree caps (some conf))
restmap-Vouches tree caps conf =
    let scripts = stanzas_with (codes "script:") conf in
    Vouches-bind _ (λ _. pure (some (names scripts)))
      (Vouches-both _ _
        (Vouches-both _ _
          (Vouches-both _ _
            (Vouches-both _ _
              (Vouches-both _ _ (Vouches-refuse_if {P = λ _. Unit {0}} _ _ _ (λ _. tt))
                (Vouches-for_each scripts (check_methods caps) (check_methods-Vouches caps)))
              (Vouches-refuse_if _ _ _ (any→All passes_system_auth scripts)))
            (Vouches-refuse_if _ _ _ (any→All is_ungated scripts)))
          (Vouches-for_each scripts check_script check_script-Vouches))
        (Vouches-refuse_if _ _ _ (any→All (lacks_script tree) scripts)))
      (λ _. Sticks-pure _)
      (λ _ p. Vouches-pure _ (
        refl,
        all-IsGated tree caps scripts p.0.1.0.1.0.1.0.1.1 p.0.1.0.1.0.1.1 p.0.1.0.1.1 p.0.1.1 p.1,
      ))

restmap-Sticks :
    (tree : Tree) (caps : Option (List Text)) (c : Option Conf) → Sticks (with_restmap tree caps c)
restmap-Sticks tree caps none = Sticks-pure none
restmap-Sticks tree caps (some conf) = Vouches-Sticks _ (restmap-Vouches tree caps conf)

pub check_restmap-Vouches :
    (tree : Tree) (caps : Option (List Text)) → Vouches (Gated tree caps) (check_restmap tree caps)
unfolding check_restmap
check_restmap-Vouches tree caps =
    with_conf-Vouches tree (codes "default/restmap.conf") (with_restmap tree caps)
      (restmap-Sticks tree caps)
      (λ conf has. Vouches-weaken _ (named conf has) (restmap-Vouches tree caps conf))
  where
    named :
        (conf : Conf)
        → HasConf tree (codes "default/restmap.conf") conf
        → (c : Option (List Text))
        → (c ≡ some (names (stanzas_with (codes "script:") conf)))
          × All (λ s. IsGated tree caps s) (stanzas_with (codes "script:") conf)
        → Gated tree caps c
    named conf has none (e, all) = cc
    named conf has (some ns) (e, all) = (conf, has, cc, all)
