-- ===== src/Stores/DataSources.antt =====
-- bin/app/models/datasource.py: DataSourceStore.
pub mod Edits
use app_datasource_validator.Prelude.{
  ℕ, ◌+◌, String, ◌==◌, Bool, true, not, ◌&&◌, ◌||◌, Option, none, some, List, ltb_ℤ, leb_ℤ, sort,
  is_nil, if◌then◌else◌,
}
use app_datasource_validator.Text.{Text, codes, strip, text_leb}
use app_datasource_validator.Exec.{value_error, pure, raise, ◌>>=◌, ◌>>◌}
use app_datasource_validator.Models.DataSource.{DataSource, status_not_run}
use app_datasource_validator.Stores.{
  World, Action, datasource_slot, get_raw, require_raw, query, update, utcnow,
}

-- The sort of the listing: `sort_order`, then `name`.
abbrev pub by_order_and_name : DataSource → DataSource → Bool
by_order_and_name a b =
    ltb_ℤ a.sort_order b.sort_order
    || leb_ℤ a.sort_order b.sort_order && text_leb (codes a.name) (codes b.name)

abbrev pub of_platform : Option String → DataSource → Bool
of_platform none ds = true
of_platform (some p) ds = ds.platform_id == p

unfoldable pub get : String → Action (Option DataSource)
unfolding get_raw
get datasource_id = get_raw datasource_slot datasource_id

unfoldable pub list : Option String → Bool → Action (List DataSource)
unfolding query text_leb ◌>>=◌
list platform_id enabled_only = do
  found ←
      query datasource_slot (λ ds. of_platform platform_id ds && (not enabled_only || ds.enabled))
  pure (sort by_order_and_name found)

abbrev pub or_keep {ℓ} : {A : Type ℓ} → Option A → Option A → Option A
or_keep none old = old
or_keep (some a) old = some a

-- The fields that a status change writes.
abbrev pub with_status : String → Option ℕ → Option String → ℕ → DataSource → DataSource
with_status status last_result_time last_run_id now current = record current {
  current_status = status;
  last_result_time = or_keep last_result_time current.last_result_time;
  last_run_id = or_keep last_run_id current.last_run_id;
  updated_time = some now;
}

abbrev pub with_query : (Text → String) → String → ℕ → DataSource → DataSource
with_query query_hash new_spl_query now current = record current {
  spl_query = new_spl_query;
  query_hash = query_hash (codes new_spl_query);
  query_version = current.query_version + 1;
  current_status = status_not_run;
  updated_time = some now;
}

module _ (w : World) where
  unfoldable pub update_status : String → String → Option ℕ → Option String → Action DataSource
  unfolding require_raw utcnow update ◌>>=◌
  update_status datasource_id status last_result_time last_run_id = do
    current ← require_raw datasource_slot datasource_id
    now ← utcnow w
    let ds = with_status status last_result_time last_run_id now current
    update datasource_slot datasource_id ds
    pure ds

  -- The hash is SHA-256 of the text in UTF-8, from Python's hashlib: a parameter.
  unfoldable pub update_query : (Text → String) → String → String → Action DataSource
  unfolding require_raw utcnow update strip ◌>>=◌
  update_query query_hash datasource_id new_spl_query =
      if is_nil (strip (codes new_spl_query)) then raise value_error else do
        current ← require_raw datasource_slot datasource_id
        now ← utcnow w
        let ds = with_query query_hash new_spl_query now current
        update datasource_slot datasource_id ds
        pure ds
