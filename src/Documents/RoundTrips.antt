-- ===== src/Documents/RoundTrips.antt =====
-- The documents of the collections are read back as what was written.
use app_datasource_validator.Prelude.{String, ◌≡◌, none, some}
use app_datasource_validator.Models.DataSource.{DataSource}
use app_datasource_validator.Models.Platform.{Platform}
use app_datasource_validator.Models.Queue.{QueueItem}
use app_datasource_validator.Models.Run.{ValidationRun}
use app_datasource_validator.Models.WorkerLease.{WorkerLease}
use app_datasource_validator.Models.ValidationResult.{ErrorMessage, ValidationResult}
use app_datasource_validator.Documents.{Formats}
use app_datasource_validator.Documents.DataSources
use app_datasource_validator.Documents.Platforms
use app_datasource_validator.Documents.Queue
use app_datasource_validator.Documents.Runs
use app_datasource_validator.Documents.Leases
use app_datasource_validator.Documents.Results

-- A data source, a platform, a queue item, a run and a lease that are written as documents are read
-- back as they were, none of their fields lost or exchanged, and so is a result, its error message as
-- its text, where datetime reads back its texts.
pub documents-read_back :
    (f : Formats) (ds : DataSource) (p : Platform) (i : QueueItem) (r : ValidationRun)
    (l : WorkerLease) (message_text : ErrorMessage → String) (v : ValidationResult)
    → (DataSources.from_doc f (DataSources.to_doc f ds) ≡ some ds)
      × (Platforms.from_doc f (Platforms.to_doc f p) ≡ some p)
      × (Queue.from_doc f (Queue.to_doc f i) ≡ some i)
      × (Runs.from_doc f (Runs.to_doc f r) ≡ some r)
      × (Leases.from_doc f (Leases.to_doc f l) ≡ some l)
      × (Results.from_doc f (Results.to_doc f message_text v)
          ≡ some (record v { error_message = none }, Results.text_of message_text v.error_message))
documents-read_back f ds p i r l message_text v = (
  DataSources.datasource-read_back f ds,
  Platforms.platform-read_back f p,
  Queue.queue_item-read_back f i,
  Runs.run-read_back f r,
  Leases.lease-read_back f l,
  Results.result-read_back f message_text v,
)
