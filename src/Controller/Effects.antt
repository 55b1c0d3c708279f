-- ===== src/Controller/Effects.antt =====
-- A tick whose worker does not get the lease.
use app_datasource_validator.Prelude.{ℕ, ◌+◌, ◌*◌, ◌<◌, String, ◌≡◌, refl, ◌≢◌, Bool, true, false}
use app_datasource_validator.Exec.{ok}
use app_datasource_validator.Stores.{World, Stores}
use app_datasource_validator.Stores.Leases
use app_datasource_validator.Stores.Leases.Exclusion.{
  clock_read, lease_in, try_acquire-held, lease_excludes,
}
use app_datasource_validator.Executor.{SearchExecutor}
use app_datasource_validator.Controller.Tick.{run_tick}

-- A tick of a worker that does not get the lease reads the clock and does nothing else.
pub run_tick-held :
    (w : World) (x : SearchExecutor) (timeout ttl : ℕ) (owner : String) (is_admin : Bool)
    (s : Stores)
    → Leases.held_by_other (lease_in s) owner (w.time_at s.clock_reads) ≡ true
    → run_tick w x timeout owner ttl is_admin s ≡ (ok tt, clock_read s)
unfolding run_tick
run_tick-held w x timeout ttl owner is_admin s h = rw (try_acquire-held w owner ttl s h) refl

-- Two workers: once `a` is granted the lease, a tick of any other worker `b` that starts before the
-- `ttl` seconds of `a` are over, in whatever state still holds that lease, reads the clock and does
-- nothing else.
pub run_tick-excluded :
    (w w' : World) (x : SearchExecutor) (timeout ttl ttl' : ℕ) (a b : String) (is_admin : Bool)
    (s s' : Stores)
    → b ≢ a
    → Leases.held_by_other (lease_in s) a (w.time_at s.clock_reads) ≡ false
    → lease_in s' ≡ lease_in (Leases.try_acquire w a ttl s).1
    → w'.time_at s'.clock_reads < w.time_at s.clock_reads + 1000 * ttl
    → run_tick w' x timeout b ttl' is_admin s' ≡ (ok tt, clock_read s')
unfolding run_tick
run_tick-excluded w w' x timeout ttl ttl' a b is_admin s s' other free same early =
    rw (lease_excludes w w' a b ttl ttl' s s' other free same early) refl
