-- ===== src/Rest/Health.antt =====
-- bin/rest_health.py.
use app_datasource_validator.Prelude.{
  ℕ, String, eq_iff, ◌≡◌, refl, ◌≢◌, Bool, false, not, Option, none, some, arith,
}
use app_datasource_validator.Exec.{ok, pure, ◌>>=◌}
use app_datasource_validator.Models.Queue.{QueueItem, queue_status_queued}
use app_datasource_validator.Models.WorkerLease.{WorkerLease, is_expired}
use app_datasource_validator.Stores.{World, Stores, Action, utcnow}
use app_datasource_validator.Stores.Queue
use app_datasource_validator.Stores.Leases
use app_datasource_validator.Stores.Leases.Exclusion.{lease_in}

pub record LeaseInfo : Type 0 where
  pub lease : WorkerLease
  pub expired : Bool

pub record Health : Type 0 where
  pub worker_lease : Option LeaseInfo
  pub worker_alive : Bool
  pub current_running_queue_id : Option String
  pub current_running_sid : Option String
  pub queued_depth : ℕ

abbrev pub lease_info : Option WorkerLease → ℕ → Option LeaseInfo
lease_info none now = none
lease_info (some l) now = some (record { lease = l; expired = is_expired l now })

abbrev pub alive : Option LeaseInfo → Bool
alive none = false
alive (some i) = not i.expired

abbrev pub queue_id_of : Option QueueItem → Option String
queue_id_of none = none
queue_id_of (some i) = some i.queue_id

abbrev pub sid_of : Option QueueItem → Option String
sid_of none = none
sid_of (some i) = i.sid

unfoldable pub get_health : World → Action Health
unfolding Leases.get utcnow Queue.find_any_running Queue.count_global_status is_expired ◌>>=◌
get_health w = do
  lease ← Leases.get
  now ← utcnow w
  in_flight ← Queue.find_any_running
  depth ← Queue.count_global_status queue_status_queued
  pure (record {
    worker_lease = lease_info lease now;
    worker_alive = alive (lease_info lease now);
    current_running_queue_id = queue_id_of in_flight;
    current_running_sid = sid_of in_flight;
    queued_depth = depth;
  })

alive-held :
    (o : Option WorkerLease) (b : String) (now : ℕ)
    → ((l : WorkerLease) → o ≡ some l → l.owner ≢ b)
    → alive (lease_info o now) ≡ Leases.held_by_other o b now
unfolding Leases.held_by_other
alive-held none b now other = refl
alive-held (some l) b now other = ground (arith, other l refl, eq_iff l.owner b)

-- The dashboard answers, and it shows a live worker exactly when any worker but the lease's owner
-- would be refused the lease at the time of the answer.
pub health-alive :
    (w : World) (s : Stores) (b : String)
    → ((l : WorkerLease) → lease_in s ≡ some l → l.owner ≢ b)
    → (h : Health) × ((get_health w s).0 ≡ ok h)
      × (h.worker_alive ≡ Leases.held_by_other (lease_in s) b (w.time_at s.clock_reads))
unfolding get_health
health-alive w s b other = (_, refl, alive-held (lease_in s) b (w.time_at s.clock_reads) other)
