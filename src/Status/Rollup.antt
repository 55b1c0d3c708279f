-- ===== src/Status/Rollup.antt =====
-- What colour a platform gets.
use app_datasource_validator.Prelude.{
  ◌==◌, eq_iff, ◌≡◌, refl, ◌≢◌, ◌↔◌, Bool, true, false, not, ◌&&◌, List, [], ◌∷◌, All, Any, any,
  all, keep, arith, ◌⊎◌,
}
use app_datasource_validator.Models.DataSource.{
  status_pass, status_fail, status_error, status_running, status_queued,
}
use app_datasource_validator.Models.Platform.{Platform}
use app_datasource_validator.Status.{
  DisplayStatus, compute_platform_status, platform_green, platform_amber, platform_red,
  platform_running, platform_grey, is_enabled_child, running_or_queued, fail_or_error,
}

-- The children that take part in the rollup.
abbrev pub enabled_children : List DisplayStatus → List DisplayStatus
enabled_children = keep is_enabled_child

abbrev pub IsFresh : DisplayStatus → Type 0
IsFresh c = (c.status ≡ status_pass) × (c.stale ≡ false)

abbrev pub InFlight : DisplayStatus → Type 0
InFlight c = (c.status ≡ status_running) ⊎ (c.status ≡ status_queued)

abbrev pub HasFailed : DisplayStatus → Type 0
HasFailed c = (c.status ≡ status_fail) ⊎ (c.status ≡ status_error)

module _ (es : List DisplayStatus) where
  abbrev passing : Bool
  passing = all (λ c. c.status == status_pass) es && not (any (λ c. c.stale) es)

IsFresh-of_passing : (es : List DisplayStatus) → passing es ≡ true → All IsFresh es
IsFresh-of_passing [] h = tt
IsFresh-of_passing (c ∷ es) h = ground (arith, IsFresh-of_passing es, eq_iff c.status status_pass)

passing-of_fresh : (es : List DisplayStatus) → All IsFresh es → passing es ≡ true
passing-of_fresh [] h = refl
passing-of_fresh (c ∷ es) h = ground (arith, passing-of_fresh es h.1, eq_iff c.status status_pass)

fresh-not_running :
    (es : List DisplayStatus) → All IsFresh es → any (λ c. running_or_queued c.status) es ≡ false
fresh-not_running [] h = refl
fresh-not_running (c ∷ es) h = rw h.0.0 (fresh-not_running es h.1)

fresh-not_failed :
    (es : List DisplayStatus) → All IsFresh es → any (λ c. fail_or_error c.status) es ≡ false
fresh-not_failed [] h = refl
fresh-not_failed (c ∷ es) h = rw h.0.0 (fresh-not_failed es h.1)

any-running_iff :
    (es : List DisplayStatus) → (any (λ c. running_or_queued c.status) es ≡ true) ↔ Any InFlight es
any-running_iff [] = (λ e. cc, λ a. absurd a)
any-running_iff (c ∷ es) =
    let ih = any-running_iff es in
    (
      λ e. ground (arith, ih, eq_iff c.status status_running, eq_iff c.status status_queued),
      λ a. ground (arith, ih, eq_iff c.status status_running, eq_iff c.status status_queued),
    )

not_true : (b : Bool) → b ≢ true → b ≡ false
not_true b h = ground arith

any-failed_iff :
    (es : List DisplayStatus) → (any (λ c. fail_or_error c.status) es ≡ true) ↔ Any HasFailed es
any-failed_iff [] = (λ e. cc, λ a. absurd a)
any-failed_iff (c ∷ es) =
    let ih = any-failed_iff es in
    (
      λ e. ground (arith, ih, eq_iff c.status status_fail, eq_iff c.status status_error),
      λ a. ground (arith, ih, eq_iff c.status status_fail, eq_iff c.status status_error),
    )

-- The five colours are different texts.
colours_distinct :
    (platform_grey ≢ platform_green)
    × (platform_grey ≢ platform_running)
    × (platform_grey ≢ platform_red)
    × (platform_green ≢ platform_running)
    × (platform_green ≢ platform_red)
    × (platform_green ≢ platform_amber)
    × (platform_running ≢ platform_red)
    × (platform_running ≢ platform_amber)
    × (platform_red ≢ platform_amber)
    × (platform_grey ≢ platform_amber)
colours_distinct = (
  ground (arith, eq_iff platform_grey platform_green),
  ground (arith, eq_iff platform_grey platform_running),
  ground (arith, eq_iff platform_grey platform_red),
  ground (arith, eq_iff platform_green platform_running),
  ground (arith, eq_iff platform_green platform_red),
  ground (arith, eq_iff platform_green platform_amber),
  ground (arith, eq_iff platform_running platform_red),
  ground (arith, eq_iff platform_running platform_amber),
  ground (arith, eq_iff platform_red platform_amber),
  ground (arith, eq_iff platform_grey platform_amber),
)

module _ (p : Platform) (cs : List DisplayStatus) where
  -- A platform is green exactly when it is enabled, it has at least one enabled child, and every
  -- enabled child is a pass that is not stale.
  platform-green_iff :
      ((compute_platform_status p cs).status ≡ platform_green)
      ↔ ((p.enabled ≡ true) × (enabled_children cs ≢ []) × All IsFresh (enabled_children cs))
  unfolding compute_platform_status
  platform-green_iff =
      let es = enabled_children cs in
      (
        λ e. (
          ground (arith, colours_distinct),
          ground (arith, colours_distinct),
          IsFresh-of_passing es (ground (arith, colours_distinct)),
        ),
        λ h.
            ground
              (arith, passing-of_fresh es h.2, fresh-not_running es h.2, fresh-not_failed es h.2),
      )

  -- A platform is red exactly when it is enabled, an enabled child failed or errored, and no
  -- enabled child is running or queued.
  platform-red_iff : ((compute_platform_status p cs).status ≡ platform_red) ↔ (
      (p.enabled ≡ true)
      × Any HasFailed (enabled_children cs)
      × ¬ Any InFlight (enabled_children cs))
  unfolding compute_platform_status
  platform-red_iff =
      let running = any-running_iff (enabled_children cs) in
      let failed = any-failed_iff (enabled_children cs) in
      (
        λ e. (
          ground (arith, colours_distinct),
          failed.0 (ground (arith, colours_distinct)),
          λ a. ground (arith, running.1 a, colours_distinct),
        ),
        λ h. ground (arith, failed.1 h.1, not_true _ (λ e. h.2 (running.0 e))),
      )

  -- A platform shows a run in progress exactly when it is enabled and an enabled child is running
  -- or queued.
  platform-running_iff :
      ((compute_platform_status p cs).status ≡ platform_running)
      ↔ ((p.enabled ≡ true) × Any InFlight (enabled_children cs))
  unfolding compute_platform_status
  platform-running_iff =
      let running = any-running_iff (enabled_children cs) in
      (
        λ e. (ground (arith, colours_distinct), running.0 (ground (arith, colours_distinct))),
        λ h. ground (arith, running.1 h.1),
      )

  -- A platform is grey exactly when it is disabled or has no enabled child.
  platform-grey_iff :
      ((compute_platform_status p cs).status ≡ platform_grey)
      ↔ ((p.enabled ≡ false) ⊎ (enabled_children cs ≡ []))
  unfolding compute_platform_status
  platform-grey_iff = (λ e. ground (arith, colours_distinct), λ h. ground arith)

  -- A platform is green exactly when it is enabled, has at least one enabled child, and every enabled
  -- child is a pass that is not stale; red exactly when it is enabled, an enabled child failed or
  -- errored, and no enabled child is running or queued; shown as running exactly when it is enabled
  -- and an enabled child is running or queued; and grey exactly when it is disabled or has no enabled
  -- child.
  pub platform-status_iff :
      (((compute_platform_status p cs).status ≡ platform_green)
        ↔ ((p.enabled ≡ true) × (enabled_children cs ≢ []) × All IsFresh (enabled_children cs)))
      × (((compute_platform_status p cs).status ≡ platform_red) ↔ (
          (p.enabled ≡ true)
          × Any HasFailed (enabled_children cs)
          × ¬ Any InFlight (enabled_children cs)))
      × (((compute_platform_status p cs).status ≡ platform_running)
          ↔ ((p.enabled ≡ true) × Any InFlight (enabled_children cs)))
      × (((compute_platform_status p cs).status ≡ platform_grey)
          ↔ ((p.enabled ≡ false) ⊎ (enabled_children cs ≡ [])))
  platform-status_iff =
      (platform-green_iff, platform-red_iff, platform-running_iff, platform-grey_iff)
