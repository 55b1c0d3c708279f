-- ===== src/Documents/Leases.antt =====
-- bin/app/models/worker_lease.py: `WorkerLease.to_doc` and `WorkerLease.from_doc`.
use app_datasource_validator.Prelude.{◌≡◌, refl, Option, some, [], ◌∷◌}
use app_datasource_validator.Json.{null, text, Fields, lookup, get_or, truthy, int_json}
use app_datasource_validator.Models.WorkerLease.{WorkerLease}
use app_datasource_validator.Documents.{
  Formats, ◌>>=◌, fields_of, as_text, time_text, optional_time, as_time, as_optional_time,
  as_optional_time-written,
}

module _ (f : Formats) where
  unfoldable pub to_doc : WorkerLease → Fields
  to_doc l = fields_of (
      ("_key", text l.lease_id)
      ∷ ("lease_id", text l.lease_id)
      ∷ ("owner", text l.owner)
      ∷ ("acquired_time", time_text f l.acquired_time)
      ∷ ("heartbeat_time", time_text f l.heartbeat_time)
      ∷ ("expires_time", optional_time f l.expires_time)
      ∷ [])

  unfoldable pub from_doc : Fields → Option WorkerLease
  unfolding get_or lookup truthy int_json
  from_doc doc = do
    lease_id ← as_text (get_or "lease_id" (get_or "_key" null doc) doc)
    owner ← as_text (get_or "owner" (text "") doc)
    acquired_time ← as_time f (get_or "acquired_time" null doc)
    heartbeat_time ← as_time f (get_or "heartbeat_time" null doc)
    expires_time ← as_optional_time f (get_or "expires_time" null doc)
    some (record {
      lease_id = lease_id;
      owner = owner;
      acquired_time = acquired_time;
      heartbeat_time = heartbeat_time;
      expires_time = expires_time;
    })

  -- A lease that is written as a document is read back as it was.
  pub lease-read_back : (l : WorkerLease) → from_doc (to_doc l) ≡ some l
  unfolding from_doc to_doc
  lease-read_back l =
      rw
        (
          f.read_iso-iso l.acquired_time,
          f.read_iso-iso l.heartbeat_time,
          as_optional_time-written f l.expires_time,
        )
        refl
