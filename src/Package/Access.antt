-- ===== src/Package/Access.antt =====
-- tools/validate_phase1.py: the checks of the lookups and of the access lists against the collections
-- and the roles, `check_transforms`, `check_meta` and `_extract_roles`.
pub mod Covered
use app_datasource_validator.Prelude.{
  Bool, true, false, not, ◌&&◌, ◌||◌, Option, none, some, List, [], ◌∷◌, ◌++◌, map, keep, any,
  is_nil, or_else, if◌then◌else◌,
}
use app_datasource_validator.Text.{Text, codes, text_eq, mem_text, strip, frozenset}
use app_datasource_validator.Text.Search.{
  starts_with, contains, drop_prefix, has_char, before, split_on,
}
use app_datasource_validator.Exec.{pure, for_each, ◌>>=◌, ◌>>◌}
use app_datasource_validator.Package.Conf.{Settings, Stanza, Conf, setting, names}
use app_datasource_validator.Package.Report.{Check, passed, warn, fail, refuse_if}
use app_datasource_validator.Package.Tree.{Tree, load_conf}
use app_datasource_validator.Package.Authorize.{has_setting, stanzas_with}

-- `stanza.get("collection") not in collection_names`
abbrev pub names_no_collection : List Text → Option Text → Bool
names_no_collection collections none = true
names_no_collection collections (some c) = not (mem_text c collections)

unfoldable pub is_dangling : List Text → Stanza → Bool
unfolding has_setting setting mem_text
is_dangling collections s =
    has_setting (codes "external_type") (codes "kvstore") s.settings
    && names_no_collection collections (setting (codes "collection") s.settings)

abbrev pub with_transforms : Option (List Text) → Option Conf → Check (Unit {0})
with_transforms collections none = pure tt
with_transforms none (some conf) = pure tt
with_transforms (some collections) (some conf) =
    refuse_if (any (is_dangling collections) conf) "lookups reference unknown collections"
      "every kvstore lookup references a real collection"

unfoldable pub check_transforms : Tree → Option (List Text) → Check (Unit {0})
unfolding load_conf is_dangling
check_transforms tree collections =
    let path = codes "default/transforms.conf" in
    if not (tree.is_file path)
    then warn "default/transforms.conf not found"
    else load_conf tree path >>= with_transforms collections

-- `_extract_roles`: the roles between the brackets of an access list, each once.
abbrev tokens_of : Text → List Text
tokens_of chunk =
    if has_char b']' chunk
    then keep (λ t. not (is_nil t) && not (text_eq t (codes "*")))
        (map strip (split_on b',' (before b']' chunk)))
    else []

abbrev tokens_of_all : List Text → List Text
tokens_of_all [] = []
tokens_of_all (chunk ∷ chunks) = tokens_of chunk ++ tokens_of_all chunks

unfoldable pub extract_roles : Text → List Text
unfolding strip text_eq frozenset
extract_roles value = frozenset (tokens_of_all (split_on b'[' value))

abbrev pub access_of : Stanza → Text
access_of s = or_else (setting (codes "access") s.settings) []

-- The roles of an access list that nobody defines; with no roles known, none.
unfoldable pub unknown_roles : List Text → Text → List Text
unfolding mem_text extract_roles
unknown_roles [] value = []
unknown_roles (role ∷ roles) value =
    keep (λ token. not (mem_text token (role ∷ roles))) (extract_roles value)

unfoldable pub check_access : List Text → Stanza → Check (Unit {0})
unfolding contains unknown_roles setting
check_access roles s =
    (if contains (codes "admin_all_objects") (access_of s)
      then fail "references admin_all_objects"
      else pure tt)
    >> for_each (unknown_roles roles (access_of s)) (λ token. fail "references unknown role")

abbrev pub violates_access : List Text → Stanza → Bool
violates_access roles s =
    contains (codes "admin_all_objects") (access_of s)
    || not (is_nil (unknown_roles roles (access_of s)))

-- The collections that have an access list of their own.
unfoldable pub meta_collections : Conf → List Text
unfolding stanzas_with
meta_collections conf =
    map (λ s. drop_prefix (codes "collections/") s.name) (stanzas_with (codes "collections/") conf)

-- `xs - ys` of sets
unfoldable pub minus : List Text → List Text → List Text
unfolding mem_text
minus xs ys = keep (λ x. not (mem_text x ys)) xs

unfoldable pub check_coverage : Option (List Text) → Conf → Check (Unit {0})
unfolding minus meta_collections
check_coverage none conf = pure tt
check_coverage (some collections) conf =
    let missing = minus (meta_collections conf) collections in
    let uncovered = minus collections (meta_collections conf) in
    (if not (is_nil missing) then fail "ACLs reference unknown collections" else pure tt)
    >> (if not (is_nil uncovered) then fail "collections with no explicit ACL" else pure tt)
    >> (if is_nil missing && is_nil uncovered
        then passed "every KV Store collection has an explicit least-privilege ACL"
        else pure tt)

abbrev pub with_meta : List Text → Option (List Text) → Option Conf → Check (Unit {0})
with_meta roles collections none = pure tt
with_meta roles collections (some conf) =
    for_each conf (check_access roles)
    >> (if not (any (violates_access roles) conf)
        then passed "all referenced roles exist and no ACL uses admin_all_objects"
        else pure tt)
    >> check_coverage collections conf

-- With no names of roles, or none at all, the roles are not compared.
unfoldable pub check_meta : Tree → Option (List Text) → Option (List Text) → Check (Unit {0})
unfolding load_conf check_access check_coverage contains unknown_roles setting
check_meta tree roles collections =
    load_conf tree (codes "metadata/default.meta") >>= with_meta (or_else roles []) collections
