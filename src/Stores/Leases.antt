-- ===== src/Stores/Leases.antt =====
-- bin/app/models/worker_lease.py: WorkerLeaseStore.
pub mod Exclusion
use app_datasource_validator.Prelude.{
  ℕ, ◌+◌, ◌*◌, String, ◌==◌, Bool, true, false, not, ◌&&◌, Option, none, some, if◌then◌else◌,
}
use app_datasource_validator.Exec.{Exec, pure, ◌>>=◌, ◌>>◌}
use app_datasource_validator.Models.WorkerLease.{WorkerLease, lease_id, is_expired}
use app_datasource_validator.Stores.{
  World, Stores, Action, lease_slot, insert, get_raw, update, delete, utcnow,
}

unfoldable pub get : Action (Option WorkerLease)
unfolding get_raw
get = get_raw lease_slot lease_id

-- `_add_seconds`, on milliseconds.
abbrev pub add_seconds : ℕ → ℕ → ℕ
add_seconds time seconds = time + 1000 * seconds

-- The acquired time of a lease that its owner renews stays.
abbrev pub acquired_since : Option WorkerLease → String → ℕ → ℕ
acquired_since none owner now = now
acquired_since (some l) owner now = if l.owner == owner then l.acquired_time else now

abbrev pub granted : Option WorkerLease → String → ℕ → ℕ → WorkerLease
granted existing owner ttl_seconds now = record {
  lease_id = lease_id;
  owner = owner;
  acquired_time = acquired_since existing owner now;
  heartbeat_time = now;
  expires_time = some (add_seconds now ttl_seconds);
}

-- Another owner holds a lease that has not expired.
unfoldable pub held_by_other : Option WorkerLease → String → ℕ → Bool
unfolding is_expired
held_by_other none owner now = false
held_by_other (some l) owner now = not (l.owner == owner) && not (is_expired l now)

abbrev pub store_lease : Option WorkerLease → WorkerLease → Action (Unit {0})
store_lease none lease = insert lease_slot lease_id lease
store_lease (some _) lease = update lease_slot lease_id lease

module _ (w : World) where
  unfoldable pub try_acquire : String → ℕ → Action (Option WorkerLease)
  unfolding utcnow get held_by_other insert update ◌>>=◌
  try_acquire owner ttl_seconds = do
    now ← utcnow w
    existing ← get
    if held_by_other existing owner now then pure none else do
      let lease = granted existing owner ttl_seconds now
      store_lease existing lease
      pure (some lease)

  abbrev beat : Option WorkerLease → String → ℕ → Action (Option WorkerLease)
  beat none owner ttl_seconds = pure none
  beat (some existing) owner ttl_seconds = if not (existing.owner == owner) then pure none else do
    now ← utcnow w
    let lease = record existing {
      heartbeat_time = now;
      expires_time = some (add_seconds now ttl_seconds);
    }
    update lease_slot lease_id lease
    pure (some lease)

  unfoldable pub heartbeat : String → ℕ → Action (Option WorkerLease)
  unfolding utcnow get update ◌>>=◌
  heartbeat owner ttl_seconds = do existing ← get; beat existing owner ttl_seconds

abbrev drop_lease : Option WorkerLease → String → Action Bool
drop_lease none owner = pure false
drop_lease (some existing) owner =
    if not (existing.owner == owner) then pure false else do delete lease_slot lease_id; pure true

unfoldable pub release : String → Action Bool
unfolding get delete ◌>>=◌
release owner = do existing ← get; drop_lease existing owner
