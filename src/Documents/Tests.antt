-- ===== src/Documents/Tests.antt =====
-- Documents read back, with a calendar that has one text for each time.
use Prim.Native.Char.{code}
use mathlib.Core.Option
use app_datasource_validator.Prelude.{
  ℕ, pos, String, ◌==◌, ◌≡◌, refl, Bool, true, false, Option, none, some, zero, suc, eqb,
  Bool-cases, inl, inr, ap, eq_iff, if◌then◌else◌,
}
use app_datasource_validator.Json.{text, empty_object, field, get_or, lookup}
use app_datasource_validator.Models.DataSource.{DataSource, status_pass}
use app_datasource_validator.Models.Queue.{QueueItem, queue_status_queued}
use app_datasource_validator.Models.Platform.{Platform}
use app_datasource_validator.Models.Run.{ValidationRun}
use app_datasource_validator.Models.WorkerLease.{WorkerLease}
use app_datasource_validator.Models.ValidationResult.{dispatch_failed, ValidationResult}
use app_datasource_validator.Documents.{Formats}
use app_datasource_validator.Documents.DataSources
use app_datasource_validator.Documents.Platforms
use app_datasource_validator.Documents.Runs
use app_datasource_validator.Documents.Leases
use app_datasource_validator.Documents.Results
use app_datasource_validator.Documents.RoundTrips.{documents-read_back}
use app_datasource_validator.Documents.Queue

-- Strokes for milliseconds.
abbrev strokes : ℕ → String
strokes zero = "T"
strokes (suc n) = String.◌∷◌ "|" (strokes n)

abbrev one_more : Option ℕ → Option ℕ
one_more none = none
one_more (some n) = some (suc n)

abbrev count_strokes : String → Option ℕ
count_strokes String.[] = none
count_strokes (String.◌∷◌ c s) = if eqb (code c) 124 then one_more (count_strokes s) else some 0

counted : (n : ℕ) → count_strokes (strokes n) ≡ some n
counted zero = refl
counted (suc n) = rw (counted n) refl

given : (n : ℕ) → (strokes n == "") ≡ false
given zero = refl
given (suc n) = elim (Bool-cases (strokes (suc n) == "")) [
  | inl e ↦ absurd (no (ap starts ((eq_iff (strokes (suc n)) "").0 e)))
  | inr e ↦ e
]
  where
    starts : String → Bool
    starts String.[] = false
    starts (String.◌∷◌ c s) = true

    no : true ≡ false → ⊥
    no e = cc

abbrev formats : Formats
formats = record {
  iso = strokes;
  read_iso = count_strokes;
  read_iso-iso = counted;
  iso_given = given;
  to_int = λ t. none;
}

abbrev syslog : DataSource
syslog = record {
  datasource_id = "syslog";
  platform_id = "linux";
  name = "Syslog";
  spl_query = "index=os";
  description = "";
  query_hash = "h";
  query_version = 2;
  sort_order = pos 0;
  enabled = false;
  stale_threshold_sec = some (pos 60);
  current_status = status_pass;
  last_result_time = some 3;
  last_run_id = some "run";
  created_time = some 1;
  updated_time = none;
}

abbrev waiting : QueueItem
waiting = record {
  queue_id = "q";
  run_id = "run";
  platform_id = "linux";
  datasource_id = "syslog";
  order_index = 4;
  status = queue_status_queued;
  query_hash = "h";
  query_version = 2;
  sid = none;
  dispatched_time = none;
  completed_time = some 5;
}

document_program : Unit {0}
unfolding DataSources.from_doc DataSources.to_doc Queue.from_doc get_or lookup
document_program = tt

-- A document of an earlier version, with the identifier under `_key` only, gets the defaults.
old_document :
    Option.map
      (λ (i : QueueItem). i.status)
      (Queue.from_doc formats (field "_key" (text "q") empty_object))
    ≡ some queue_status_queued
unfolding document_program
old_document = refl

abbrev linux : Platform
linux = record {
  platform_id = "linux";
  name = "Linux";
  description = "hosts";
  sort_order = pos 3;
  enabled = false;
  created_time = some 1;
  updated_time = none;
}

abbrev run : ValidationRun
run = record {
  run_id = "run";
  created_time = 2;
  created_by = "admin";
  trigger_type = "manual";
  status = "RUNNING";
  total_items = 2;
  completed_items = 1;
  completed_time = none;
}

abbrev lease : WorkerLease
lease = record {
  lease_id = "dsv_validation_worker";
  owner = "sh1";
  acquired_time = 0;
  heartbeat_time = 1;
  expires_time = some 3;
}

abbrev result : ValidationResult
result = record {
  result_id = "res_1";
  run_id = "run_1";
  queue_id = "q_1";
  datasource_id = "syslog";
  platform_id = "linux";
  status = "ERROR";
  result_count = 0;
  query_hash = "h";
  query_version = 3;
  executed_time = 2;
  duration_ms = 5;
  error_message = some dispatch_failed;
}

documents-read_back_example :
    (DataSources.from_doc formats (DataSources.to_doc formats syslog) ≡ some syslog)
    × (Platforms.from_doc formats (Platforms.to_doc formats linux) ≡ some linux)
    × (Queue.from_doc formats (Queue.to_doc formats waiting) ≡ some waiting)
    × (Runs.from_doc formats (Runs.to_doc formats run) ≡ some run)
    × (Leases.from_doc formats (Leases.to_doc formats lease) ≡ some lease)
    × (Results.from_doc formats (Results.to_doc formats (λ m. "failed") result)
        ≡ some (record result { error_message = none }, some "failed"))
documents-read_back_example =
    documents-read_back formats syslog linux waiting run lease (λ m. "failed") result
