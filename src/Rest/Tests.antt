-- ===== src/Rest/Tests.antt =====
-- The handlers at concrete requests.
use app_datasource_validator.Prelude.{
  String, ◌==◌, if◌then◌else◌, ℤ, pos, ◌≡◌, refl, true, Option, none, some, [], ◌∷◌, map,
}
use app_datasource_validator.Text.{Text, codes, ascii_lower}
use app_datasource_validator.Query.{QueryValidator, unavailable, default_validator, validate}
use app_datasource_validator.Exec.{ok}
use app_datasource_validator.Models.DataSource.{DataSource}
use app_datasource_validator.Models.Platform.{Platform}
use app_datasource_validator.Kv.{find, docs}
use app_datasource_validator.Stores.{World, Stores}
use app_datasource_validator.Stores.DataSources.Edits.{NewDataSource, MetadataFields}
use app_datasource_validator.Json.{null, number}
use app_datasource_validator.Stores.Settings
use app_datasource_validator.Stores.Settings.Latest.{set_value-get}
use app_datasource_validator.Rest.{error_status}
use app_datasource_validator.Rest.Platforms
use app_datasource_validator.Rest.Platforms.Deletion.{unless_of, delete_handler_lem}
use app_datasource_validator.Rest.DataSources.{post_datasource, put_datasource}

abbrev world : World
world = record { time_at = λ n. n; identifier = λ prefix n. prefix }

abbrev to_int : Text → Option ℤ
to_int t = none

-- The parser is down.
abbrev validator : QueryValidator
validator = default_validator ascii_lower (λ q. unavailable (codes "503"))

abbrev linux : Platform
linux = record {
  platform_id = "linux";
  name = "Linux";
  description = "";
  sort_order = pos 0;
  enabled = true;
  created_time = none;
  updated_time = none;
}

abbrev syslog : DataSource
syslog = record {
  datasource_id = "syslog";
  platform_id = "linux";
  name = "Syslog";
  spl_query = "index=os";
  description = "";
  query_hash = "h";
  query_version = 1;
  sort_order = pos 0;
  enabled = true;
  stale_threshold_sec = none;
  current_status = "NOT RUN";
  last_result_time = none;
  last_run_id = none;
  created_time = none;
  updated_time = none;
}

abbrev stores : Stores
stores = record {
  platforms = ("linux", linux) ∷ [];
  datasources =
      ("syslog", syslog)
      ∷ ("web", record syslog { datasource_id = "web"; platform_id = "web" })
      ∷ [];
  runs = [];
  queue = [];
  results = [];
  leases = [];
  settings = [];
  clock_reads = 0;
  ids_made = 0;
  job_calls = [];
}

abbrev asked : NewDataSource
asked = record {
  datasource_id = some "new";
  platform_id = some "linux";
  name = some "New";
  spl_query = "";
  description = some "";
  sort_order = pos 0;
  enabled = true;
  stale_threshold_sec = none;
}

abbrev renamed : MetadataFields
renamed = record {
  name = some "Renamed";
  description = none;
  sort_order = none;
  enabled = none;
  stale_threshold_sec = none;
}

rest_program : Unit {0}
unfolding post_datasource put_datasource Platforms.delete_handler Platforms.get_platforms validate
    default_validator error_status docs find ascii_lower
rest_program = tt

-- The platform takes its data sources with it, and no others.
platform_deleted :
    map
      (λ (d : DataSource). d.datasource_id)
      (docs (Platforms.delete_handler (some "linux") stores).1.datasources)
    ≡ "web" ∷ []
unfolding rest_program
platform_deleted = refl

abbrev after_deletion : Stores
after_deletion = (Platforms.delete_handler (some "linux") stores).1

delete_handler_lem_example :
    ((Platforms.delete_handler (some "linux") stores).0 ≡ ok "linux")
    × ((k : String)
        → find k after_deletion.datasources ≡ unless_of "linux" (find k stores.datasources))
    × ((k : String)
        → find k after_deletion.platforms
          ≡ (if "linux" == k then none else find k stores.platforms))
    × (after_deletion.runs ≡ stores.runs)
    × (after_deletion.queue ≡ stores.queue)
    × (after_deletion.results ≡ stores.results)
unfolding find
delete_handler_lem_example =
    delete_handler_lem "linux" linux stores refl (refl, tt) (refl, (refl, tt)) (refl, (refl, tt))

set_value_reads_back :
    ((Settings.set_value world "k" (number (pos 5)) none stores).0 ≡ ok (number (pos 5)))
    × ((Settings.get "k" null (Settings.set_value world "k" (number (pos 5)) none stores).1).0
        ≡ ok (number (pos 5)))
set_value_reads_back = set_value-get world "k" (number (pos 5)) none stores null
