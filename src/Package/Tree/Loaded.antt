-- ===== src/Package/Tree/Loaded.antt =====
-- What a clean report tells of a .conf file that was loaded.
use app_datasource_validator.Prelude.{◌≡◌, refl, true, Option, none, some}
use app_datasource_validator.Text.{Text}
use app_datasource_validator.Exec.{pure, ◌>>=◌, ◌>>◌}
use app_datasource_validator.Package.Conf.{
  Conf, Reading, read, duplicate_stanza, neither_header_nor_pair, before_any_stanza, duplicate_key,
  out_of_fuel, parse_conf,
}
use app_datasource_validator.Package.Report.{
  Check, passed, fail, Vouches, Vouches-bind, Vouches-pure, Vouches-passed, Vouches-fail,
  Vouches-if, Vouches-Sticks, Sticks, Sticks-pure, Sticks-bind,
}
use app_datasource_validator.Package.Tree.{Tree, load_conf, loaded}

-- The file is there and reads as these stanzas.
pub record HasConf (tree : Tree) (path : Text) (conf : Conf) : Type 0 where
  pub is_there : tree.is_file path ≡ true
  pub reads : parse_conf (tree.lines path) ≡ read conf

abbrev pub Loaded : Tree → Text → Option Conf → Type 0
Loaded tree path none = ⊥
Loaded tree path (some conf) = HasConf tree path conf

module _ (tree : Tree) (path : Text) where
  none-Vouches : (message : _) → Vouches (Loaded tree path) (fail message >> pure none)
  none-Vouches message =
      Vouches-bind {P = λ _. ⊥} (fail message) (λ _. pure none) (Vouches-fail message)
        (λ _. Sticks-pure none) (λ _ h. absurd h)

  loaded-Vouches :
      tree.is_file path ≡ true
      → (r : Reading) → parse_conf (tree.lines path) ≡ r
      → Vouches (Loaded tree path) (loaded r)
  loaded-Vouches there (read conf) e =
      Vouches-bind {P = λ _. Unit {0}} (passed _) (λ _. pure (some conf)) (Vouches-passed _ tt)
        (λ _. Sticks-pure (some conf))
        (λ _ _. Vouches-pure (some conf) record { is_there = there; reads = e })
  loaded-Vouches there (duplicate_stanza name) e = none-Vouches _
  loaded-Vouches there (neither_header_nor_pair line) e = none-Vouches _
  loaded-Vouches there (before_any_stanza key) e = none-Vouches _
  loaded-Vouches there (duplicate_key key name) e = none-Vouches _
  loaded-Vouches there out_of_fuel e = none-Vouches _

  pub load_conf-Vouches : Vouches (Loaded tree path) (load_conf tree path)
  unfolding load_conf
  load_conf-Vouches =
      Vouches-if (tree.is_file path) _ _ (λ there. loaded-Vouches there _ refl)
        (λ _. none-Vouches _)

-- A check that starts with a .conf file.
pub with_conf-Vouches :
    {A : Type 0} {P : A → Type 0} (tree : Tree) (path : Text) (rest : Option Conf → Check A)
    → ((c : Option Conf) → Sticks (rest c))
    → ((conf : Conf) → HasConf tree path conf → Vouches P (rest (some conf)))
    → Vouches P (load_conf tree path >>= rest)
with_conf-Vouches {P = P} tree path rest st each =
    Vouches-bind (load_conf tree path) rest (load_conf-Vouches tree path) st loaded_rest
  where
    loaded_rest : (c : Option Conf) → Loaded tree path c → Vouches P (rest c)
    loaded_rest none h = absurd h
    loaded_rest (some conf) h = each conf h

pub with_conf-Sticks :
    {A : Type 0} (tree : Tree) (path : Text) (rest : Option Conf → Check A)
    → ((c : Option Conf) → Sticks (rest c))
    → Sticks (load_conf tree path >>= rest)
with_conf-Sticks tree path rest st =
    Sticks-bind (load_conf tree path) rest (Vouches-Sticks _ (load_conf-Vouches tree path)) st
