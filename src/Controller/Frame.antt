-- ===== src/Controller/Frame.antt =====
-- The actions that leave the queue as it is keep every predicate of the queue.
pub mod Operations
use app_datasource_validator.Prelude.{ℕ, String, ◌≡◌, refl, Bool, ◌∷◌, [], ◌++◌, arith}
use app_datasource_validator.Kv.{Collection, replace}
use app_datasource_validator.Exec.Keeps.{Keeps, keeps_rules}
use app_datasource_validator.Models.DataSource.{DataSource}
use app_datasource_validator.Models.Run.{ValidationRun}
use app_datasource_validator.Models.ValidationResult.{ValidationResult}
use app_datasource_validator.Models.WorkerLease.{WorkerLease}
use app_datasource_validator.Stores.{
  World, Stores, Action, Slot, insert, get_raw, require_raw, query, update, utcnow, new_id,
  datasource_slot, run_slot, result_slot, lease_slot,
}

pub record Framed (P : Stores → Type 0) : Type 0 where
  pub by_queue : (s s' : Stores) → s'.queue ≡ s.queue → P s → P s'

module _ {P : Stores → Type 0} (f : Framed P) where
  pub Framed-still :
      {A : Type 0} (m : Action A) → ((s : Stores) → (m s).1.queue ≡ s.queue) → Keeps P m
  Framed-still m h = record { from = λ s p. f.by_queue s (m s).1 (h s) p }

  module _ {D : Type 0} (slot : Slot D)
      (frame : (c : Collection D) (s : Stores) → (slot.write c s).queue ≡ s.queue) where
    insert-framed : (key : String) (doc : D) → Keeps P (insert slot key doc)
    unfolding insert
    insert-framed key doc =
        Framed-still _ (λ s. ground (arith, frame (slot.read s ++ (key, doc) ∷ []) s))

    update-framed : (key : String) (doc : D) → Keeps P (update slot key doc)
    unfolding update
    update-framed key doc =
        Framed-still _ (λ s. ground (arith, frame (replace key doc (slot.read s)) s))

  pub Framed-insert_run : (key : String) (doc : ValidationRun) → Keeps P (insert run_slot key doc)
  Framed-insert_run = insert-framed run_slot (λ c s. refl)

  pub Framed-update_run : (key : String) (doc : ValidationRun) → Keeps P (update run_slot key doc)
  Framed-update_run = update-framed run_slot (λ c s. refl)

  pub Framed-insert_result :
      (key : String) (doc : ValidationResult) → Keeps P (insert result_slot key doc)
  Framed-insert_result = insert-framed result_slot (λ c s. refl)

  pub Framed-update_datasource :
      (key : String) (doc : DataSource) → Keeps P (update datasource_slot key doc)
  Framed-update_datasource = update-framed datasource_slot (λ c s. refl)

  pub Framed-insert_lease : (key : String) (doc : WorkerLease) → Keeps P (insert lease_slot key doc)
  Framed-insert_lease = insert-framed lease_slot (λ c s. refl)

  pub Framed-update_lease : (key : String) (doc : WorkerLease) → Keeps P (update lease_slot key doc)
  Framed-update_lease = update-framed lease_slot (λ c s. refl)

  pub Framed-utcnow : (w : World) → Keeps P (utcnow w)
  unfolding utcnow
  Framed-utcnow w = Framed-still (utcnow w) (λ s. refl)

  pub Framed-new_id : (w : World) (prefix : String) → Keeps P (new_id w prefix)
  unfolding new_id
  Framed-new_id w prefix = Framed-still (new_id w prefix) (λ s. refl)

module _ {P : Stores → Type 0} {D : Type 0} (slot : Slot D) where
  pub Keeps-get_raw : (key : String) → Keeps P (get_raw slot key)
  unfolding get_raw
  Keeps-get_raw key = record { from = λ s h. h }

  pub Keeps-require_raw : (key : String) → Keeps P (require_raw slot key)
  unfolding require_raw
  Keeps-require_raw key = record { from = λ s h. h }

  pub Keeps-query : (matches : D → Bool) → Keeps P (query slot matches)
  unfolding query
  Keeps-query matches = record { from = λ s h. h }

pub ruleset framed_rules = (
  keeps_rules, Keeps-get_raw, Keeps-require_raw, Keeps-query, Framed-insert_run, Framed-update_run,
  Framed-insert_result, Framed-update_datasource, Framed-insert_lease, Framed-update_lease,
  Framed-utcnow, Framed-new_id,
)
