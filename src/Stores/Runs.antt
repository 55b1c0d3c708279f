-- ===== src/Stores/Runs.antt =====
-- bin/app/models/validation_run.py: ValidationRunStore.
use app_datasource_validator.Prelude.{
  zero, suc, ◌||◌, ℕ, String, ◌==◌, Bool, true, Option, none, some, List, leb, sort, take,
}
use app_datasource_validator.Exec.{pure, ◌>>=◌, ◌>>◌}
use app_datasource_validator.Models.Run.{
  ValidationRun, run_status_running, run_status_completed, run_status_cancelled,
}
use app_datasource_validator.Stores.{
  World, Action, run_slot, insert, get_raw, require_raw, query, update, utcnow, new_id,
}

-- `-created_time`: the newest first, and runs of one time in the order of insertion.
abbrev pub newest_first : ValidationRun → ValidationRun → Bool
newest_first a b = leb b.created_time a.created_time

abbrev pub has_status : Option String → ValidationRun → Bool
has_status none r = true
has_status (some s) r = s == "" || (r.status == s)

-- A limit of 0 is none.
abbrev pub at_most : Option ℕ → List ValidationRun → List ValidationRun
at_most none rs = rs
at_most (some zero) rs = rs
at_most (some (suc n)) rs = take (suc n) rs

unfoldable pub get : String → Action (Option ValidationRun)
unfolding get_raw
get run_id = get_raw run_slot run_id

unfoldable pub list : Option String → Option ℕ → Action (List ValidationRun)
unfolding query ◌>>=◌
list status limit = do
  found ← query run_slot (has_status status)
  pure (at_most limit (sort newest_first found))

unfoldable pub set_progress : String → ℕ → Action ValidationRun
unfolding require_raw update ◌>>=◌
set_progress run_id completed_items = do
  current ← require_raw run_slot run_id
  let run = record current { completed_items = completed_items }
  update run_slot run_id run
  pure run

abbrev pub new_run : String → ℕ → String → String → ℕ → ValidationRun
new_run run_id now created_by trigger_type total_items = record {
  run_id = run_id;
  created_time = now;
  created_by = created_by;
  trigger_type = trigger_type;
  status = run_status_running;
  total_items = total_items;
  completed_items = 0;
  completed_time = none;
}

module _ (w : World) where
  -- `create` without a `run_id`, as the controller calls it.
  unfoldable pub create : String → String → ℕ → Action ValidationRun
  unfolding new_id utcnow insert ◌>>=◌
  create created_by trigger_type total_items = do
    run_id ← new_id w "run"
    now ← utcnow w
    let run = new_run run_id now created_by trigger_type total_items
    insert run_slot run_id run
    pure run

  unfoldable pub finish : String → String → Action ValidationRun
  unfolding require_raw utcnow update ◌>>=◌
  finish status run_id = do
    current ← require_raw run_slot run_id
    now ← utcnow w
    let run = record current { status = status; completed_time = some now }
    update run_slot run_id run
    pure run

  unfoldable pub mark_completed : String → Action ValidationRun
  unfolding finish
  mark_completed = finish run_status_completed

  unfoldable pub cancel : String → Action ValidationRun
  unfolding finish
  cancel = finish run_status_cancelled
