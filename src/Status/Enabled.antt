-- ===== src/Status/Enabled.antt =====
-- Disabled children do not count in the rollup.
use app_datasource_validator.Prelude.{◌≡◌, refl, List, [], ◌∷◌, ◌++◌, keep, arith}
use app_datasource_validator.Models.Platform.{Platform}
use app_datasource_validator.Status.{
  DisplayStatus, disabled, compute_platform_status, is_enabled_child,
}

keep-without_disabled :
    (xs ys : List DisplayStatus) (c : DisplayStatus)
    → c.status ≡ disabled
    → keep is_enabled_child (xs ++ c ∷ ys) ≡ keep is_enabled_child (xs ++ ys)
keep-without_disabled [] ys c h = rw h refl
keep-without_disabled (x ∷ xs) ys c h = ground (arith, keep-without_disabled xs ys c h)

-- A disabled child may be added anywhere, or taken away, and the platform's status, labels included, is the same.
pub platform-without_disabled :
    (p : Platform) (xs ys : List DisplayStatus) (c : DisplayStatus)
    → c.status ≡ disabled
    → compute_platform_status p (xs ++ c ∷ ys) ≡ compute_platform_status p (xs ++ ys)
unfolding compute_platform_status
platform-without_disabled p xs ys c h = rw (keep-without_disabled xs ys c h) refl
