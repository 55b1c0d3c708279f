-- ===== src/Models/WorkerLease.antt =====
-- The record of bin/app/models/worker_lease.py.
use app_datasource_validator.Prelude.{ℕ, String, Bool, true, Option, none, some, leb}

abbrev pub lease_id : String
lease_id = "dsv_validation_worker"

pub record WorkerLease : Type 0 where
  pub lease_id : String
  pub owner : String
  pub acquired_time : ℕ
  pub heartbeat_time : ℕ
  pub expires_time : Option ℕ

-- `is_expired(now)`: no expiry time, or `now >= expires`.
unfoldable pub is_expired : WorkerLease → ℕ → Bool
is_expired lease now = elim lease.expires_time [ none ↦ true | some expires ↦ leb expires now ]
