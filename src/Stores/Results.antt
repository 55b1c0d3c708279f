-- ===== src/Stores/Results.antt =====
-- bin/app/models/validation_result.py: ValidationResultStore.
use app_datasource_validator.Prelude.{
  zero, suc, ℕ, String, ◌==◌, Bool, Option, none, some, List, [], ◌∷◌, leb, sort, take,
}
use app_datasource_validator.Exec.{pure, ◌>>=◌, ◌>>◌}
use app_datasource_validator.Models.ValidationResult.{ValidationResult, ErrorMessage}
use app_datasource_validator.Stores.{
  World, Action, result_slot, insert, get_raw, query, utcnow, new_id,
}

abbrev pub newest_first : ValidationResult → ValidationResult → Bool
newest_first a b = leb b.executed_time a.executed_time

abbrev pub oldest_first : ValidationResult → ValidationResult → Bool
oldest_first a b = leb a.executed_time b.executed_time

-- A limit of 0 is none.
abbrev pub at_most : Option ℕ → List ValidationResult → List ValidationResult
at_most none rs = rs
at_most (some zero) rs = rs
at_most (some (suc n)) rs = take (suc n) rs

unfoldable pub get : String → Action (Option ValidationResult)
unfolding get_raw
get result_id = get_raw result_slot result_id

unfoldable pub list_for_datasource : String → Option ℕ → Action (List ValidationResult)
unfolding query ◌>>=◌
list_for_datasource datasource_id limit = do
  found ← query result_slot (λ r. r.datasource_id == datasource_id)
  pure (at_most limit (sort newest_first found))

abbrev first : List ValidationResult → Option ValidationResult
first [] = none
first (r ∷ _) = some r

unfoldable pub latest_for_datasource : String → Action (Option ValidationResult)
unfolding query ◌>>=◌
latest_for_datasource datasource_id = do
  found ← query result_slot (λ r. r.datasource_id == datasource_id)
  pure (first (take 1 (sort newest_first found)))

unfoldable pub list_for_run : String → Action (List ValidationResult)
unfolding query ◌>>=◌
list_for_run run_id = do
  found ← query result_slot (λ r. r.run_id == run_id)
  pure (sort oldest_first found)

-- The arguments of `create` that its callers give.
pub record NewResult : Type 0 where
  pub run_id : String
  pub queue_id : String
  pub datasource_id : String
  pub platform_id : String
  pub status : String
  pub result_count : ℕ
  pub query_hash : String
  pub query_version : ℕ
  pub error_message : Option ErrorMessage

abbrev pub new_result : String → ℕ → NewResult → ValidationResult
new_result result_id executed_time n = record {
  result_id = result_id;
  run_id = n.run_id;
  queue_id = n.queue_id;
  datasource_id = n.datasource_id;
  platform_id = n.platform_id;
  status = n.status;
  result_count = n.result_count;
  query_hash = n.query_hash;
  query_version = n.query_version;
  executed_time = executed_time;
  duration_ms = 0;
  error_message = n.error_message;
}

module _ (w : World) where
  abbrev pub now_or : Option ℕ → Action ℕ
  now_or none = utcnow w
  now_or (some t) = pure t

  unfoldable pub create : NewResult → Option ℕ → Action ValidationResult
  unfolding new_id utcnow insert pure ◌>>=◌
  create n executed_time = do
    result_id ← new_id w "result"
    time ← now_or executed_time
    let result = new_result result_id time n
    insert result_slot result_id result
    pure result
