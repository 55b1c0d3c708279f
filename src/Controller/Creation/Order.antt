-- ===== src/Controller/Creation/Order.antt =====
-- The order that `sort_key` gives: any two data sources are comparable, and it is transitive.
use app_datasource_validator.Prelude.{
  ℤ, ◌≡◌, refl, Bool, true, false, ◌&&◌, ◌||◌, List, [], ◌∷◌, ltb_ℤ, leb_ℤ, arith, sort, IsSorted,
  sort-IsSorted,
}
use app_datasource_validator.Text.{Text, codes, text_leb}
use app_datasource_validator.Models.Platform.{Platform}
use app_datasource_validator.Models.DataSource.{DataSource}
use app_datasource_validator.Controller.{platform_of, platform_order, by_sort_key}

text_leb-total : (s t : Text) → text_leb s t ≡ false → text_leb t s ≡ true
unfolding text_leb
text_leb-total [] t h = cc
text_leb-total (c ∷ s) [] h = refl
text_leb-total (c ∷ s) (d ∷ t) h = ground (arith, text_leb-total s t)

text_leb-transitive :
    (s t u : Text) → text_leb s t ≡ true → text_leb t u ≡ true → text_leb s u ≡ true
unfolding text_leb
text_leb-transitive [] t u h k = refl
text_leb-transitive (c ∷ s) [] u h k = cc
text_leb-transitive (c ∷ s) (d ∷ t) [] h k = cc
text_leb-transitive (c ∷ s) (d ∷ t) (e ∷ u) h k = ground (arith, text_leb-transitive s t u)

-- One key before the rest of the order.
abbrev first_by : (a b : ℤ) → Bool → Bool
first_by a b rest = ltb_ℤ a b || leb_ℤ a b && rest

first_by-total :
    (a b : ℤ) (r q : Bool) → (r ≡ false → q ≡ true) → first_by a b r ≡ false → first_by b a q ≡ true
first_by-total a b r q h k = ground (arith, h)

first_by-transitive :
    (a b c : ℤ) (r q p : Bool)
    → (r ≡ true → q ≡ true → p ≡ true)
    → first_by a b r ≡ true
    → first_by b c q ≡ true
    → first_by a c p ≡ true
first_by-transitive a b c r q p h k l = ground (arith, h)

module _ (platforms : List Platform) where
  abbrev order_of : DataSource → ℤ
  order_of ds = platform_order (platform_of platforms ds.platform_id)

  abbrev in_platform : DataSource → DataSource → Bool
  in_platform a b = first_by a.sort_order b.sort_order (text_leb (codes a.name) (codes b.name))

  by_sort_key-total :
      (a b : DataSource) → by_sort_key platforms a b ≡ false → by_sort_key platforms b a ≡ true
  unfolding by_sort_key
  by_sort_key-total a b =
      first_by-total (order_of a) (order_of b) (in_platform a b) (in_platform b a) (
        first_by-total a.sort_order b.sort_order (text_leb (codes a.name) (codes b.name))
          (text_leb (codes b.name) (codes a.name)) (text_leb-total (codes a.name) (codes b.name)))

  by_sort_key-transitive :
      (a b c : DataSource)
      → by_sort_key platforms a b ≡ true
      → by_sort_key platforms b c ≡ true
      → by_sort_key platforms a c ≡ true
  unfolding by_sort_key
  by_sort_key-transitive a b c =
      first_by-transitive (order_of a) (order_of b) (order_of c) (in_platform a b) (in_platform b c)
        (in_platform a c)
        (first_by-transitive a.sort_order b.sort_order c.sort_order
          (text_leb (codes a.name) (codes b.name)) (text_leb (codes b.name) (codes c.name))
          (text_leb (codes a.name) (codes c.name))
          (text_leb-transitive (codes a.name) (codes b.name) (codes c.name)))

  pub sort_key-IsSorted :
      (dss : List DataSource) → IsSorted (by_sort_key platforms) (sort (by_sort_key platforms) dss)
  sort_key-IsSorted = sort-IsSorted (by_sort_key platforms) by_sort_key-total by_sort_key-transitive
