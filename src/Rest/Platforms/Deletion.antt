-- ===== src/Rest/Platforms/Deletion.antt =====
-- bin/rest_validation.py, DsvPlatformHandler.handle_delete: what goes with a platform.
use app_datasource_validator.Prelude.{
  String, ◌==◌, eq_iff, ◌≡◌, refl, subst, ◌∙◌, Bool, true, false, not, ◌&&◌, ◌||◌, Option, none,
  some, List, [], ◌∷◌, arith, any, keep, sort, insert_sorted, if◌then◌else◌, inl, inr, Bool-cases,
  All,
}
use app_datasource_validator.Kv.{Collection, find, remove, docs}
use app_datasource_validator.Exec.{ok, pure, for_each, ◌>>=◌}
use app_datasource_validator.Models.DataSource.{DataSource}
use app_datasource_validator.Models.Platform.{Platform}
use app_datasource_validator.Stores.{Stores, delete, get_raw, query}
use app_datasource_validator.Stores.Maps.{Unique, find-remove, Unique-remove}
use app_datasource_validator.Stores.DataSources
use app_datasource_validator.Stores.DataSources.Edits.{delete_datasource}
use app_datasource_validator.Stores.Platforms
use app_datasource_validator.Stores.Platforms.Edits.{delete_platform}
use app_datasource_validator.Rest.Platforms.{delete_handler}

any-insert_sorted :
    {A : Type 0} (le : A → A → Bool) (p : A → Bool) (x : A) (ys : List A)
    → any p (insert_sorted le x ys) ≡ p x || any p ys
any-insert_sorted le p x [] = refl
any-insert_sorted le p x (y ∷ ys) = ground (arith, any-insert_sorted le p x ys)

any-sort :
    {A : Type 0} (le : A → A → Bool) (p : A → Bool) (xs : List A) → any p (sort le xs) ≡ any p xs
any-sort le p [] = refl
any-sort le p (x ∷ xs) = ground (arith, any-insert_sorted le p x (sort le xs), any-sort le p xs)

-- The collection without the documents under the identifiers of a list.
abbrev remove_all : List DataSource → Collection DataSource → Collection DataSource
remove_all [] c = c
remove_all (d ∷ ds) c = remove_all ds (remove d.datasource_id c)

abbrev is_named : String → List DataSource → Bool
is_named k ds = any (λ d. d.datasource_id == k) ds

find-remove_all :
    (k : String) (ds : List DataSource) (c : Collection DataSource)
    → Unique c
    → find k (remove_all ds c) ≡ (if is_named k ds then none else find k c)
find-remove_all k [] c u = refl
find-remove_all k (d ∷ ds) c u = ground (
  arith,
  find-remove_all k ds (remove d.datasource_id c) (Unique-remove d.datasource_id c u),
  find-remove d.datasource_id k c u,
)

-- Every data source stands under its own identifier.
abbrev pub OwnKeys : Collection DataSource → Type 0
OwnKeys c = All (λ e. e.0 ≡ e.1.datasource_id) c

-- What is under a key, unless it belongs to the platform.
abbrev pub unless_of : String → Option DataSource → Option DataSource
unless_of platform_id none = none
unless_of platform_id (some d) = if d.platform_id == platform_id then none else some d

abbrev selected : String → DataSource → Bool
selected platform_id d = DataSources.of_platform (some platform_id) d && (not false || d.enabled)

abbrev belongs : String → Option DataSource → Bool
belongs platform_id none = false
belongs platform_id (some d) = d.platform_id == platform_id

same_key :
    (j k : String) (c : Collection DataSource) → (j == k) ≡ true → find j c ≡ none → find k c ≡ none
same_key j k c same new = subst (λ (x : String). find x c ≡ none) ((eq_iff j k).0 same) new

is_named-selected :
    (platform_id k : String) (c : Collection DataSource)
    → Unique c
    → OwnKeys c
    → is_named k (keep (selected platform_id) (docs c)) ≡ belongs platform_id (find k c)
unfolding find docs
is_named-selected platform_id k [] u own = refl
is_named-selected platform_id k ((j, d) ∷ c) (new, u) (own, owns) =
    let ih = is_named-selected platform_id k c u owns in
    let own_key : (d.datasource_id == k) ≡ (j == k) = rw own refl in
    elim (Bool-cases (j == k)) [
      | inl same ↦
          let none_later : find k c ≡ none = same_key j k c same new in
          rw same (elim (Bool-cases (d.platform_id == platform_id)) [
            | inl of ↦ rw of (ground (arith, own_key, same))
            | inr other ↦ rw (other, ih, none_later) refl
          ])
      | inr differs ↦ rw differs (elim (Bool-cases (d.platform_id == platform_id)) [
        | inl of ↦ rw of (ground (arith, own_key, differs, ih))
        | inr other ↦ rw other ih
      ])
    ]

delete_each :
    (ds : List DataSource) (s : Stores)
    → for_each ds (λ d. delete_datasource d.datasource_id) s
      ≡ (ok tt, record s { datasources = remove_all ds s.datasources })
unfolding for_each pure ◌>>=◌ delete_datasource delete
delete_each [] s = refl
delete_each (d ∷ ds) s =
    delete_each ds (record s { datasources = remove d.datasource_id s.datasources })

abbrev targets : String → Stores → List DataSource
targets platform_id s =
    sort DataSources.by_order_and_name (keep (selected platform_id) (docs s.datasources))

delete_handler-run :
    (platform_id : String) (p : Platform) (s : Stores)
    → find platform_id s.platforms ≡ some p
    → delete_handler (some platform_id) s ≡ (
      ok platform_id,
      record s {
        datasources = remove_all (targets platform_id s) s.datasources;
        platforms = remove platform_id s.platforms;
      },
    )
unfolding delete_handler Platforms.get DataSources.list get_raw query pure ◌>>=◌ delete_platform
    delete
delete_handler-run platform_id p s there = rw (there, delete_each (targets platform_id s) s) refl

-- A platform that is there is deleted with all of its data sources and nothing else: the answer is its
-- identifier, and afterwards each key finds the data source that it found before, unless that belongs
-- to the platform, and the platform that it found before, unless it is this one; runs, queue and
-- results are as before. No key stands twice in the collections, and every data source stands under
-- its own identifier.
pub delete_handler_lem :
    (platform_id : String) (p : Platform) (s : Stores)
    → find platform_id s.platforms ≡ some p
    → Unique s.platforms
    → Unique s.datasources
    → OwnKeys s.datasources
    → ((delete_handler (some platform_id) s).0 ≡ ok platform_id)
      × ((k : String)
          → find k (delete_handler (some platform_id) s).1.datasources
            ≡ unless_of platform_id (find k s.datasources))
      × ((k : String)
          → find k (delete_handler (some platform_id) s).1.platforms
            ≡ (if platform_id == k then none else find k s.platforms))
      × ((delete_handler (some platform_id) s).1.runs ≡ s.runs)
      × ((delete_handler (some platform_id) s).1.queue ≡ s.queue)
      × ((delete_handler (some platform_id) s).1.results ≡ s.results)
delete_handler_lem platform_id p s there up ud own =
    rw (delete_handler-run platform_id p s there)
      (refl, λ k. deleted k, λ k. find-remove platform_id k s.platforms up, refl, refl, refl)
  where
    kept :
        (k : String) (o : Option DataSource)
        → (if belongs platform_id o then none else o) ≡ unless_of platform_id o
    kept k none = refl
    kept k (some d) = refl

    deleted :
        (k : String)
        → find k (remove_all (targets platform_id s) s.datasources)
          ≡ unless_of platform_id (find k s.datasources)
    deleted k =
        find-remove_all k (targets platform_id s) s.datasources ud
        ∙ rw
            (
              any-sort DataSources.by_order_and_name (λ d. d.datasource_id == k)
                  (keep (selected platform_id) (docs s.datasources)),
              is_named-selected platform_id k s.datasources ud own,
            )
            (kept k (find k s.datasources))
