-- ===== src/Package/Authorize/LeastPrivilege.antt =====
-- What a clean report tells of authorize.conf.
use app_datasource_validator.Prelude.{
  is_nil→eq, not-false, ◌≡◌, refl, ap, true, false, not, ◌||◌, Option, none, some, List, [], ◌∷◌,
  is_nil, or_else, All, cons-ne_nil, inl, inr, Bool-cases,
}
use app_datasource_validator.Text.{Text, codes, text_eq, strip}
use app_datasource_validator.Text.Equality.{text_eq→eq, text_eq_refl}
use app_datasource_validator.Exec.{pure}
use app_datasource_validator.Package.Conf.{Settings, Stanza, Conf, setting, stanza}
use app_datasource_validator.Package.Report.{
  Vouches, Vouches-bind, Vouches-both, Vouches-pure, Vouches-passed, Vouches-fail, Vouches-if,
  Vouches-refuse_if, Vouches-for_each, Vouches-weaken, Vouches-Sticks, Sticks, Sticks-pure,
  Sticks-bind,
}
use app_datasource_validator.Package.Tree.{Tree}
use app_datasource_validator.Package.Tree.Loaded.{HasConf, with_conf-Vouches}
use app_datasource_validator.Package.Authorize.{
  has_setting, stanzas_with, service_role, capability_names, human_role_names, imports_roles,
  has_no_index_list, enabled_capabilities, check_service, check_service_role, check_role,
  check_authorize_conf, with_authorize, check_authorize,
}

pub has_setting→eq :
    (key value : Text) (settings : Settings)
    → has_setting key value settings ≡ true
    → setting key settings ≡ some value
unfolding has_setting
has_setting→eq key value settings h = found (setting key settings) h
  where
    found :
        (o : Option Text)
        → (elim o [ none ↦ false | some v ↦ text_eq v value ]) ≡ true
        → o ≡ some value
    found none h = cc
    found (some v) h = ap (λ (t : Text). some t) (text_eq→eq v value h)

pub has_setting→ne :
    (key value : Text) (settings : Settings)
    → has_setting key value settings ≡ false
    → ¬ (setting key settings ≡ some value)
unfolding has_setting
has_setting→ne key value settings h e = cc (text_eq_refl value, (rw (e, has_setting) at h))

-- The role of the service imports no role, may run no real-time search, is granted none of the app's
-- capabilities and searches a list of indexes that is not empty and not `*`; no role of the app is
-- granted admin_all_objects.
pub record IsLeastPrivileged (conf : Conf) : Type 0 where
  pub service : Settings
  pub is_there : stanza service_role conf ≡ some service
  pub no_imports : strip (or_else (setting (codes "importRoles") service) []) ≡ []
  pub no_realtime : setting (codes "rtSrchJobsQuota") service ≡ some (codes "0")
  pub no_capability :
      All (λ c. ¬ (setting c service ≡ some (codes "enabled"))) (capability_names conf)
  pub indexes : Text
  pub index_list : setting (codes "srchIndexesAllowed") service ≡ some indexes
  pub some_index : ¬ (indexes ≡ [])
  pub not_all : ¬ (indexes ≡ codes "*")
  pub no_admin :
      All
        (λ s. ¬ (setting (codes "admin_all_objects") s.settings ≡ some (codes "enabled")))
        (stanzas_with (codes "role_") conf)

none_enabled :
    (settings : Settings) (caps : List Text)
    → enabled_capabilities caps settings ≡ []
    → All (λ c. ¬ (setting c settings ≡ some (codes "enabled"))) caps
unfolding enabled_capabilities
none_enabled settings [] h = tt
none_enabled settings (c ∷ caps) h = elim (Bool-cases (has_setting c (codes "enabled") settings)) [
  | inl on ↦ absurd (cons-ne_nil _ _ (rw on at h))
  | inr off ↦
      (has_setting→ne c (codes "enabled") settings off, none_enabled settings caps (rw off at h))
]

-- What the checks of the service's role find.
abbrev Restricted : List Text → Settings → Type 0
Restricted caps svc =
    (strip (or_else (setting (codes "importRoles") svc) []) ≡ [])
    × (setting (codes "rtSrchJobsQuota") svc ≡ some (codes "0"))
    × All (λ c. ¬ (setting c svc ≡ some (codes "enabled"))) caps
    × ((indexes : Text) × (setting (codes "srchIndexesAllowed") svc ≡ some indexes)
        × ¬ (indexes ≡ [])
        × ¬ (indexes ≡ codes "*"))

index_list :
    (svc : Settings)
    → has_no_index_list svc ≡ false
    → (indexes : Text) × (setting (codes "srchIndexesAllowed") svc ≡ some indexes)
      × ¬ (indexes ≡ [])
      × ¬ (indexes ≡ codes "*")
unfolding has_no_index_list
index_list svc h = found (setting (codes "srchIndexesAllowed") svc) refl h
  where
    found :
        (o : Option Text)
        → setting (codes "srchIndexesAllowed") svc ≡ o
        → (elim o [ none ↦ true | some v ↦ is_nil v || text_eq v (codes "*") ]) ≡ false
        → (indexes : Text) × (setting (codes "srchIndexesAllowed") svc ≡ some indexes)
          × ¬ (indexes ≡ [])
          × ¬ (indexes ≡ codes "*")
    found none e h = cc
    found (some v) e h =
        (v, e, λ empty. cc (rw empty at h), λ star. (cc (text_eq_refl (codes "*"), (rw star at h))))

no_imports :
    (svc : Settings)
    → imports_roles svc ≡ false
    → strip (or_else (setting (codes "importRoles") svc) []) ≡ []
unfolding imports_roles
no_imports svc h = is_nil→eq _ (not-false _ h)

no_realtime :
    (svc : Settings)
    → not (has_setting (codes "rtSrchJobsQuota") (codes "0") svc) ≡ false
    → setting (codes "rtSrchJobsQuota") svc ≡ some (codes "0")
no_realtime svc h = has_setting→eq (codes "rtSrchJobsQuota") (codes "0") svc (not-false _ h)

check_service-Vouches :
    (caps : List Text) (svc : Settings)
    → Vouches (λ _. Restricted caps svc) (check_service caps svc)
unfolding check_service
check_service-Vouches caps svc =
    Vouches-weaken _ (λ _ p. (p.0.1.0.1.0.1, p.0.1.0.1.1, p.0.1.1, p.1))
      (Vouches-both _ _
        (Vouches-both _ _
          (Vouches-both _ _ (Vouches-refuse_if (imports_roles svc) _ _ (no_imports svc))
            (Vouches-refuse_if _ _ _ (no_realtime svc)))
          (Vouches-refuse_if _ _ _ (λ h.
            none_enabled svc caps (is_nil→eq (enabled_capabilities caps svc) (not-false _ h)))))
        (Vouches-refuse_if _ _ _ (index_list svc)))

abbrev HasService : List Text → Option Settings → Type 0
HasService caps none = ⊥
HasService caps (some svc) = Restricted caps svc

check_service_role-Vouches :
    (caps : List Text) (svc : Option Settings)
    → Vouches (λ _. HasService caps svc) (check_service_role caps svc)
unfolding check_service_role
check_service_role-Vouches caps none = Vouches-fail _
check_service_role-Vouches caps (some svc) = check_service-Vouches caps svc

abbrev NoAdmin : Stanza → Type 0
NoAdmin s = ¬ (setting (codes "admin_all_objects") s.settings ≡ some (codes "enabled"))

check_role-Vouches : (s : Stanza) → Vouches (λ _. NoAdmin s) (check_role s)
unfolding check_role
check_role-Vouches s =
    Vouches-if _ _ _ (λ _. Vouches-fail _)
      (λ off.
        Vouches-pure tt
          (has_setting→ne (codes "admin_all_objects") (codes "enabled") s.settings off))

least_privileged :
    (conf : Conf) (svc : Option Settings)
    → stanza service_role conf ≡ svc
    → HasService (capability_names conf) svc
    → All (λ s. NoAdmin s) (stanzas_with (codes "role_") conf)
    → IsLeastPrivileged conf
least_privileged conf none e h admin = absurd h
least_privileged conf (some svc) e (imports, realtime, caps, (indexes, list, some_index, star))
      admin =
    record {
      service = svc;
      is_there = e;
      no_imports = imports;
      no_realtime = realtime;
      no_capability = caps;
      indexes = indexes;
      index_list = list;
      some_index = some_index;
      not_all = star;
      no_admin = admin;
    }

check_authorize_conf-Vouches :
    (conf : Conf)
    → Vouches
        (λ names. (names ≡ (capability_names conf, human_role_names conf)) × IsLeastPrivileged conf)
        (check_authorize_conf conf)
unfolding check_authorize_conf
check_authorize_conf-Vouches conf =
    Vouches-bind _ (λ _. pure (capability_names conf, human_role_names conf))
      (Vouches-both _ _
        (Vouches-both _ _
          (Vouches-both _ _
            (Vouches-both _ _ (Vouches-refuse_if {P = λ _. Unit {0}} _ _ _ (λ _. tt))
              (Vouches-refuse_if {P = λ _. Unit {0}} _ _ _ (λ _. tt)))
            (check_service_role-Vouches (capability_names conf) (stanza service_role conf)))
          (Vouches-for_each (stanzas_with (codes "role_") conf) check_role check_role-Vouches))
        (Vouches-passed {P = λ _. Unit {0}} _ tt))
      (λ _. Sticks-pure _)
      (λ _ p. Vouches-pure _ (refl, least_privileged conf _ refl p.0.1.0.1.1 p.0.1.1))

-- The names of authorize.conf, which is there, can be read and grants as little as it should.
abbrev pub Authorized : Tree → Option (List Text × List Text) → Type 0
Authorized tree none = ⊥
Authorized tree (some names) =
    (conf : Conf) × HasConf tree (codes "default/authorize.conf") conf
    × (names ≡ (capability_names conf, human_role_names conf))
    × IsLeastPrivileged conf

with_authorize-Sticks : (c : Option Conf) → Sticks (with_authorize c)
with_authorize-Sticks none = Sticks-pure none
with_authorize-Sticks (some conf) =
    Sticks-bind (check_authorize_conf conf) (λ names. pure (some names))
      (Vouches-Sticks _ (check_authorize_conf-Vouches conf)) (λ names. Sticks-pure (some names))

pub check_authorize-Vouches : (tree : Tree) → Vouches (Authorized tree) (check_authorize tree)
unfolding check_authorize
check_authorize-Vouches tree =
    with_conf-Vouches tree (codes "default/authorize.conf") with_authorize with_authorize-Sticks
      (λ conf has.
        Vouches-bind (check_authorize_conf conf) (λ names. pure (some names))
          (check_authorize_conf-Vouches conf) (λ names. Sticks-pure (some names))
          (λ names p. Vouches-pure (some names) (conf, has, p.0, p.1)))
