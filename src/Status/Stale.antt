-- ===== src/Status/Stale.antt =====
-- When a pass is shown as stale.
use app_datasource_validator.Prelude.{
  ℕ, ◌+◌, ◌*◌, ◌≤◌, ◌<◌, ℤ, pos_part, neg_part, String, ◌==◌, eq_iff, ◌≡◌, refl, ◌↔◌, ◌⊎◌, inl, inr,
  Bool, true, false, Option, none, some, arith, lt→ltb, ltb→lt, if◌then◌else◌,
}
use app_datasource_validator.Models.DataSource.{DataSource, status_pass, status_not_run}
use app_datasource_validator.Status.{
  compute_datasource_display_status, effective_threshold, beyond_threshold, raw_status_of,
}

-- `now - last > threshold` over the integers, in milliseconds.
abbrev pub IsOlder : ℕ → ℕ → ℤ → Type 0
IsOlder now last t = last + 1000 * pos_part t < now + 1000 * neg_part t

-- The threshold that counts: the data source's own, or the default if it has none.
abbrev pub IsThreshold : Option ℤ → Option ℤ → ℤ → Type 0
IsThreshold own default t = (own ≡ some t) ⊎ ((own ≡ none) × (default ≡ some t))

IsThreshold-of :
    (own default : Option ℤ) (t : ℤ)
    → effective_threshold own default ≡ some t
    → IsThreshold own default t
IsThreshold-of none default t e = inr (refl, e)
IsThreshold-of (some u) default t e = inl e

threshold-effective :
    (own default : Option ℤ) (t : ℤ)
    → IsThreshold own default t
    → effective_threshold own default ≡ some t
threshold-effective own default t (inl e) = rw e refl
threshold-effective own default t (inr (e, d)) = rw (e, d) refl

beyond-IsOlder :
    (now : ℕ) (o : Option ℕ) (lim : Option ℤ)
    → beyond_threshold now o lim ≡ true
    → (last : ℕ) × (t : ℤ) × (o ≡ some last) × (lim ≡ some t) × IsOlder now last t
beyond-IsOlder now (some last) (some t) h = (last, t, refl, refl, ltb→lt _ _ h)
beyond-IsOlder now (some last) none h = cc
beyond-IsOlder now none lim h = cc

pass-of_default :
    (b : Bool) (s : String)
    → ((if b then status_not_run else s) == status_pass) ≡ true
    → s ≡ status_pass
pass-of_default true s h = cc
pass-of_default false s h = (eq_iff s status_pass).0 h

-- Only a PASS reads as a PASS: an empty status reads as NOT RUN.
raw_pass :
    (ds : DataSource) → (raw_status_of ds == status_pass) ≡ true → ds.current_status ≡ status_pass
unfolding raw_status_of
raw_pass ds = pass-of_default (ds.current_status == "") ds.current_status

module _ (ds : DataSource) (now : ℕ) (default : Option ℤ) where
  stale-is_stale : ((compute_datasource_display_status ds now default).stale ≡ true) ↔ (
      (ds.enabled ≡ true)
      × (ds.current_status ≡ status_pass)
      × (beyond_threshold now ds.last_result_time
            (effective_threshold ds.stale_threshold_sec default)
          ≡ true))
  unfolding compute_datasource_display_status
  stale-is_stale = (
    λ e. ground (arith, raw_pass ds),
    λ h. ground (
      arith,
      eq_iff ds.current_status status_pass,
      eq_iff ds.current_status "",
      eq_iff "PASS" "",
    ),
  )

  -- A data source is shown as stale exactly when it is enabled, its status is PASS, it has a last
  -- result and a threshold (its own, or else the default), and more seconds than the threshold
  -- have passed since that result.
  pub datasource-stale_iff : ((compute_datasource_display_status ds now default).stale ≡ true) ↔ (
      (ds.enabled ≡ true)
      × (ds.current_status ≡ status_pass)
      × ((last : ℕ) × (t : ℤ) × (ds.last_result_time ≡ some last)
          × IsThreshold ds.stale_threshold_sec default t
          × IsOlder now last t))
  datasource-stale_iff = (
    λ e.
        let (on, passed, late) = stale-is_stale.0 e in
        let (last, t, had, limit, old) = beyond-IsOlder now _ _ late in
        (on, passed, (last, t, had, IsThreshold-of ds.stale_threshold_sec default t limit, old)),
    λ (on, passed, (last, t, had, limit, old)).
        let effective = threshold-effective ds.stale_threshold_sec default t limit in
        stale-is_stale.1 (on, passed, rw (had, effective) (lt→ltb _ _ old)),
  )

-- A result that is stale stays stale as time goes on.
pub datasource-stale_later :
    (ds : DataSource) (now later : ℕ) (default : Option ℤ)
    → now ≤ later
    → (compute_datasource_display_status ds now default).stale ≡ true
    → (compute_datasource_display_status ds later default).stale ≡ true
datasource-stale_later ds now later default le h =
    let (on, passed, (last, t, had, limit, old)) = (datasource-stale_iff ds now default).0 h in
    (datasource-stale_iff ds later default).1 (on, passed, (last, t, had, limit, omega arith))
