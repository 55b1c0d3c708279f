-- ===== src/Stores/Leases/Exclusion.antt =====
-- Who gets the lease, and for how long.
use app_datasource_validator.Prelude.{
  ℕ, suc, ◌+◌, ◌*◌, ◌<◌, String, eq_iff, eq_refl, ◌≡◌, refl, ◌∙◌, ◌≢◌, true, false, Option, none,
  some, [], ◌∷◌, ◌++◌, arith,
}
use app_datasource_validator.Kv.{find, replace}
use app_datasource_validator.Kv.Laws.{find-replace, find-append_new}
use app_datasource_validator.Exec.{ok}
use app_datasource_validator.Models.WorkerLease.{WorkerLease, lease_id}
use app_datasource_validator.Stores.{World, Stores, insert, update}
use app_datasource_validator.Stores.Leases.{
  granted, held_by_other, store_lease, try_acquire, heartbeat, release,
}

-- The state after the clock has been read once.
abbrev pub clock_read : Stores → Stores
clock_read s = record s { clock_reads = suc s.clock_reads }

abbrev pub lease_in : Stores → Option WorkerLease
lease_in s = find lease_id s.leases

module _ (w : World) (owner : String) (ttl : ℕ) (s : Stores) where
  abbrev pub now : ℕ
  now = w.time_at s.clock_reads

  -- Where another live owner holds the lease the answer is None, and nothing is written.
  pub try_acquire-held :
      held_by_other (lease_in s) owner now ≡ true
      → try_acquire w owner ttl s ≡ (ok none, clock_read s)
  unfolding try_acquire
  try_acquire-held h = ground arith

  stored :
      (o : Option WorkerLease) (l : WorkerLease)
      → lease_in s ≡ o
      → (r : Stores) × (store_lease o l (clock_read s) ≡ (ok tt, r))
        × (lease_in r ≡ some l)
        × (r.queue ≡ s.queue)
  unfolding insert update
  stored none l e = (
    record (clock_read s) { leases = s.leases ++ (lease_id, l) ∷ [] },
    ground arith,
    find-append_new lease_id l s.leases e,
    refl,
  )
  stored (some old) l e = (
    record (clock_read s) { leases = replace lease_id l s.leases },
    ground arith,
    ground (arith, find-replace lease_id lease_id l s.leases, eq_refl lease_id),
    refl,
  )

  -- Otherwise the lease is granted and stored.
  pub try_acquire-granted :
      held_by_other (lease_in s) owner now ≡ false
      → (try_acquire w owner ttl s).0 ≡ ok (some (granted (lease_in s) owner ttl now))
        × (lease_in (try_acquire w owner ttl s).1 ≡ some (granted (lease_in s) owner ttl now))
  unfolding try_acquire
  try_acquire-granted h =
      let (r, e, f, _) = stored (lease_in s) (granted (lease_in s) owner ttl now) refl in
      rw h (rw e (refl, f))

-- A lease that was just granted keeps every other owner out until it expires: in whatever state
-- still holds that lease, at any time before `ttl` seconds have passed, another owner gets None
-- and writes nothing.
pub lease_excludes :
    (w w' : World) (a b : String) (ttl ttl' : ℕ) (s s' : Stores)
    → b ≢ a
    → held_by_other (lease_in s) a (now w a ttl s) ≡ false
    → lease_in s' ≡ lease_in (try_acquire w a ttl s).1
    → w'.time_at s'.clock_reads < w.time_at s.clock_reads + 1000 * ttl
    → try_acquire w' b ttl' s' ≡ (ok none, clock_read s')
lease_excludes w w' a b ttl ttl' s s' other free same early = try_acquire-held w' b ttl' s' (
    rw (same ∙ (try_acquire-granted w a ttl s free).1)
      (unfold held_by_other in ground (arith, eq_iff a b)))

-- Only its owner renews a lease: the answer to anybody else is None, and nothing changes.
pub heartbeat-other :
    (w : World) (b : String) (ttl : ℕ) (s : Stores) (l : WorkerLease)
    → lease_in s ≡ some l
    → l.owner ≢ b
    → (heartbeat w b ttl s ≡ (ok none, s)) × (release b s ≡ (ok false, s))
unfolding heartbeat release
heartbeat-other w b ttl s l e other =
    (ground (arith, eq_iff l.owner b), ground (arith, eq_iff l.owner b))
