-- ===== src/Package/Tests.antt =====
-- Runs of the package tools at concrete inputs.
use app_datasource_validator.Prelude.{◌≡◌, refl, ◌⊎◌, none, some, List, [], ◌∷◌, sort}
use app_datasource_validator.Text.{Text, codes, is_space, mem_text}
use app_datasource_validator.Exec.{◌>>=◌, for_each}
use app_datasource_validator.Package.Report.{passed, warn, refuse_if}
use app_datasource_validator.Package.Authorize.{
  imports_roles, enabled_capabilities, has_no_index_list,
}
use app_datasource_validator.Package.Conf.{Conf, read, duplicate_key, parse_conf}
use app_datasource_validator.Package.Conf.WellFormed.{Outcome, parse_conf-Outcome}
use app_datasource_validator.Package.Conf.Lines.{IsPrintable, conf_lines}
use app_datasource_validator.Package.Conf.RoundTrip.{parse_conf-conf_lines}
use app_datasource_validator.Package.Build.{shippable_files}
use app_datasource_validator.Package.Build
use app_datasource_validator.Package.Build.Ships.{IsReleased, main-IsReleased}
use app_datasource_validator.Package.Samples.{sample_tree, app_file, sample_space, lines_of}
use app_datasource_validator.Package.Validator
use app_datasource_validator.Package.Validator.Safe.{IsSafe, main-IsSafe}

sample-passes : Validator.main sample_tree ≡ 0
unfolding Validator.main sample_tree ◌>>=◌ for_each passed warn refuse_if imports_roles
    enabled_capabilities has_no_index_list
sample-passes = refl

main-IsSafe_example : IsSafe sample_tree
main-IsSafe_example = main-IsSafe sample_tree sample-passes

main-IsReleased_example :
    ((Build.main sample_space).0 ≡ 0
      → ((Build.main sample_space).1.archive
          ≡ some (sort sample_space.path_le (shippable_files sample_space)))
        × IsReleased sample_space (sort sample_space.path_le (shippable_files sample_space)))
    × (((Build.main sample_space).0 ≡ 0) ⊎ ((Build.main sample_space).1.archive ≡ none))
main-IsReleased_example = main-IsReleased sample_space

sample-shippable : shippable_files sample_space ≡ app_file ∷ []
unfolding shippable_files sample_space
sample-shippable = refl

sample-builds : (Build.main sample_space).0 ≡ 0
unfolding Build.main sample_space ◌>>=◌ for_each passed warn refuse_if imports_roles
    enabled_capabilities has_no_index_list
sample-builds = refl

abbrev two_stanzas : Conf
two_stanzas =
    record {
      name = codes "install";
      settings = (codes "is_configured", codes "false") ∷ (codes "state", []) ∷ [];
    }
    ∷ record { name = codes "ui"; settings = [] }
    ∷ []

two_stanzas-IsPrintable : IsPrintable two_stanzas
unfolding is_space mem_text
two_stanzas-IsPrintable = (
  (refl, (refl, tt)),
  (
    (
      (refl, (refl, tt)),
      (
        ((refl, refl, refl, refl, refl), (refl, refl, refl)),
        (((refl, refl, refl, refl, refl), (refl, refl, refl)), tt),
      ),
    ),
    ((tt, tt), tt),
  ),
)

parse_conf-conf_lines_example : parse_conf (conf_lines two_stanzas) ≡ read two_stanzas
parse_conf-conf_lines_example = parse_conf-conf_lines two_stanzas two_stanzas-IsPrintable

abbrev commented : List Text
commented = lines_of ("# a comment" ∷ "" ∷ " [ui] " ∷ " label = a\\" ∷ "  b " ∷ "version=1=2" ∷ [])

commented-read :
    parse_conf commented
    ≡ read (
        record {
          name = codes "ui";
          settings = (codes "label", codes "ab") ∷ (codes "version", codes "1=2") ∷ [];
        }
        ∷ [])
unfolding parse_conf
commented-read = refl

repeated-refused :
    parse_conf (lines_of ("[ui]" ∷ "a=1" ∷ "a=2" ∷ [])) ≡ duplicate_key (codes "a") (codes "ui")
unfolding parse_conf
repeated-refused = refl

parse_conf-Outcome_example : Outcome (parse_conf commented)
parse_conf-Outcome_example = parse_conf-Outcome commented
