-- ===== src/Package/Endpoints/Typed.antt =====
-- What a clean report tells of collections.conf.
use app_datasource_validator.Prelude.{
  not-false, ◌≡◌, refl, false, Option, none, some, List, is_nil, All,
}
use app_datasource_validator.Text.{Text, codes}
use app_datasource_validator.Text.Equality.{In, mem_text→In}
use app_datasource_validator.Exec.{pure}
use app_datasource_validator.Package.Conf.{Stanza, Conf, names}
use app_datasource_validator.Package.Report.{
  Vouches, Vouches-bind, Vouches-both, Vouches-pure, Vouches-passed, Vouches-fail, Vouches-if,
  Vouches-refuse_if, Vouches-for_each, Vouches-weaken, Vouches-Sticks, Sticks, Sticks-pure,
}
use app_datasource_validator.Package.Tree.{Tree}
use app_datasource_validator.Package.Tree.Loaded.{HasConf, with_conf-Vouches}
use app_datasource_validator.Package.Endpoints.{
  settings_with, field_types, check_field, check_collection, with_collections, check_collections,
}

-- A collection declares at least one field, and each has one of the types of the KV Store.
abbrev pub IsTyped : Stanza → Type 0
IsTyped s =
    (is_nil (settings_with (codes "field.") s.settings) ≡ false)
    × All (λ f. In f.1 field_types) (settings_with (codes "field.") s.settings)

check_field-Vouches : (f : Text × Text) → Vouches (λ _. In f.1 field_types) (check_field f)
unfolding check_field
check_field-Vouches (key, type) =
    Vouches-if _ _ _ (λ _. Vouches-fail _)
      (λ known. Vouches-pure tt (mem_text→In type field_types (not-false _ known)))

check_collection-Vouches : (s : Stanza) → Vouches (λ _. IsTyped s) (check_collection s)
unfolding check_collection
check_collection-Vouches s =
    Vouches-weaken _ (λ _ p. (p.0.1, p.1))
      (Vouches-both _ _ (Vouches-if _ _ _ (λ _. Vouches-fail _) (λ some. Vouches-pure tt some)) (
        Vouches-for_each (settings_with (codes "field.") s.settings) check_field
          check_field-Vouches))

-- collections.conf is there, can be read and declares what it stores; its collections are named.
abbrev pub Collected : Tree → Option (List Text) → Type 0
Collected tree none = ⊥
Collected tree (some collections) =
    (conf : Conf) × HasConf tree (codes "default/collections.conf") conf
    × (collections ≡ names conf)
    × All (λ s. IsTyped s) conf

collections-Vouches :
    (conf : Conf)
    → Vouches
        (λ c. (c ≡ some (names conf)) × All (λ s. IsTyped s) conf)
        (with_collections (some conf))
collections-Vouches conf =
    Vouches-bind _ (λ _. pure (some (names conf)))
      (Vouches-both _ _
        (Vouches-both _ _ (Vouches-refuse_if {P = λ _. Unit {0}} _ _ _ (λ _. tt))
          (Vouches-for_each conf check_collection check_collection-Vouches))
        (Vouches-passed {P = λ _. Unit {0}} _ tt))
      (λ _. Sticks-pure _) (λ _ p. Vouches-pure _ (refl, p.0.1.1))

collections-Sticks : (c : Option Conf) → Sticks (with_collections c)
collections-Sticks none = Sticks-pure none
collections-Sticks (some conf) = Vouches-Sticks _ (collections-Vouches conf)

pub check_collections-Vouches : (tree : Tree) → Vouches (Collected tree) (check_collections tree)
unfolding check_collections
check_collections-Vouches tree =
    with_conf-Vouches tree (codes "default/collections.conf") with_collections collections-Sticks
      (λ conf has. Vouches-weaken _ (named conf has) (collections-Vouches conf))
  where
    named :
        (conf : Conf)
        → HasConf tree (codes "default/collections.conf") conf
        → (c : Option (List Text)) → (c ≡ some (names conf)) × All (λ s. IsTyped s) conf
        → Collected tree c
    named conf has none (e, typed) = cc
    named conf has (some ns) (e, typed) = (conf, has, cc, typed)
