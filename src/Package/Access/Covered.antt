-- ===== src/Package/Access/Covered.antt =====
-- What a clean report tells of default.meta.
use app_datasource_validator.Prelude.{
  not-false, is_nil→eq, ◌≡◌, true, false, not, ◌&&◌, Option, none, some, List, [], ◌∷◌, keep, any,
  is_nil, or_else, All, inl, inr, Bool-cases,
}
use app_datasource_validator.Text.{Text, codes, mem_text}
use app_datasource_validator.Text.Equality.{In, mem_text→In}
use app_datasource_validator.Text.Search.{contains}
use app_datasource_validator.Package.Conf.{Stanza, Conf}
use app_datasource_validator.Package.Report.{
  fail, Vouches, Vouches-both, Vouches-pure, Vouches-fail, Vouches-if, Vouches-for_each,
  Vouches-weaken, Vouches-Sticks, Sticks, Sticks-pure, Sticks-if, Sticks-passed, Sticks-warn,
  sticks_rules,
}
use app_datasource_validator.Package.Tree.{Tree}
use app_datasource_validator.Package.Tree.Loaded.{HasConf, with_conf-Vouches, with_conf-Sticks}
use app_datasource_validator.Package.Access.{
  with_transforms, check_transforms, extract_roles, access_of, unknown_roles, check_access,
  meta_collections, minus, check_coverage, with_meta, check_meta, violates_access,
}

-- Where the names of the roles are known, all roles of an access list are among them; and it does not
-- name admin_all_objects.
abbrev pub KnowsRoles : List Text → Text → Type 0
KnowsRoles [] access = Unit
KnowsRoles (role ∷ roles) access = All (λ t. In t (role ∷ roles)) (extract_roles access)

abbrev pub IsRestricted : List Text → Stanza → Type 0
IsRestricted roles s =
    (contains (codes "admin_all_objects") (access_of s) ≡ false) × KnowsRoles roles (access_of s)

none_kept :
    (ys xs : List Text) → All (λ x. ⊥) (keep (λ x. not (mem_text x ys)) xs) → All (λ x. In x ys) xs
none_kept ys [] h = tt
none_kept ys (x ∷ xs) h = elim (Bool-cases (mem_text x ys)) [
  | inl there ↦ (mem_text→In x ys there, none_kept ys xs (rw there at h))
  | inr new ↦
      let kept : ⊥ × All (λ x. ⊥) (keep (λ x. not (mem_text x ys)) xs) = rw new at h in
      absurd kept.0
]

known :
    (roles : List Text) (access : Text)
    → All (λ t. ⊥) (unknown_roles roles access)
    → KnowsRoles roles access
unfolding unknown_roles
known [] access h = tt
known (role ∷ roles) access h = none_kept (role ∷ roles) (extract_roles access) h

check_access-Vouches :
    (roles : List Text) (s : Stanza) → Vouches (λ _. IsRestricted roles s) (check_access roles s)
unfolding check_access
check_access-Vouches roles s =
    Vouches-weaken _ (λ _ p. (p.0.1, known roles (access_of s) p.1))
      (Vouches-both _ _
        (Vouches-if (contains (codes "admin_all_objects") (access_of s)) _ _ (λ _. Vouches-fail _)
          (λ clean. Vouches-pure tt clean))
        (Vouches-for_each (unknown_roles roles (access_of s)) (λ token. fail _)
          (λ token. Vouches-fail _)))

minus-none : (xs ys : List Text) → is_nil (minus xs ys) ≡ true → All (λ x. In x ys) xs
unfolding minus
minus-none xs ys h = none_kept ys xs (rw (is_nil→eq (minus xs ys) h) tt)

-- The collections with an access list of their own are those that are declared.
abbrev pub Covers : Option (List Text) → Conf → Type 0
Covers none conf = Unit
Covers (some collections) conf =
    All (λ c. In c collections) (meta_collections conf)
    × All (λ c. In c (meta_collections conf)) collections

check_coverage-Vouches :
    (collections : Option (List Text)) (conf : Conf)
    → Vouches (λ _. Covers collections conf) (check_coverage collections conf)
unfolding check_coverage
check_coverage-Vouches none conf = Vouches-pure tt tt
check_coverage-Vouches (some collections) conf =
    Vouches-weaken _
      (λ _ p. (
        minus-none (meta_collections conf) collections (not-false _ p.0.1.0.1),
        minus-none collections (meta_collections conf) (not-false _ p.0.1.1),
      ))
      (Vouches-both _ _
        (Vouches-both _ _
          (Vouches-if (not (is_nil (minus (meta_collections conf) collections))) _ _
            (λ _. Vouches-fail _) (λ h. Vouches-pure tt h))
          (Vouches-if (not (is_nil (minus collections (meta_collections conf)))) _ _
            (λ _. Vouches-fail _) (λ h. Vouches-pure tt h)))
        (Sticks-if
          (is_nil (minus (meta_collections conf) collections)
            && is_nil (minus collections (meta_collections conf)))
          _ _ (Sticks-passed _) (Sticks-pure tt)))

abbrev pub Covered : Tree → List Text → Option (List Text) → Type 0
Covered tree roles collections =
    (conf : Conf) × HasConf tree (codes "metadata/default.meta") conf
    × All (λ s. IsRestricted roles s) conf
    × Covers collections conf

meta-Vouches :
    (roles : List Text) (collections : Option (List Text)) (conf : Conf)
    → Vouches
        (λ _. All (λ s. IsRestricted roles s) conf × Covers collections conf)
        (with_meta roles collections (some conf))
meta-Vouches roles collections conf =
    Vouches-weaken _ (λ _ p. (p.0.1.0.1, p.1))
      (Vouches-both _ _
        (Vouches-both _ _ (Vouches-for_each conf (check_access roles) (check_access-Vouches roles))
          (Sticks-if (not (any (violates_access roles) conf)) _ _ (Sticks-passed _)
            (Sticks-pure tt)))
        (check_coverage-Vouches collections conf))

meta-Sticks :
    (roles : List Text) (collections : Option (List Text)) (c : Option Conf)
    → Sticks (with_meta roles collections c)
meta-Sticks roles collections none = Sticks-pure tt
meta-Sticks roles collections (some conf) = Vouches-Sticks _ (meta-Vouches roles collections conf)

pub check_meta-Vouches :
    (tree : Tree) (roles collections : Option (List Text))
    → Vouches (λ _. Covered tree (or_else roles []) collections) (check_meta tree roles collections)
unfolding check_meta
check_meta-Vouches tree roles collections =
    with_conf-Vouches tree (codes "metadata/default.meta")
      (with_meta (or_else roles []) collections) (meta-Sticks (or_else roles []) collections)
      (λ conf has.
        Vouches-weaken _ (λ _ p. (conf, has, p.0, p.1))
          (meta-Vouches (or_else roles []) collections conf))

transforms-Sticks :
    (collections : Option (List Text)) (c : Option Conf) → Sticks (with_transforms collections c)
transforms-Sticks collections none = Sticks-pure tt
transforms-Sticks none (some conf) = Sticks-pure tt
transforms-Sticks (some collections) (some conf) = search sticks_rules

pub check_transforms-Sticks :
    (tree : Tree) (collections : Option (List Text)) → Sticks (check_transforms tree collections)
unfolding check_transforms
check_transforms-Sticks tree collections =
    Sticks-if (not (tree.is_file (codes "default/transforms.conf"))) _ _ (Sticks-warn _) (
      with_conf-Sticks tree (codes "default/transforms.conf") (with_transforms collections)
        (transforms-Sticks collections))
