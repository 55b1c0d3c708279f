-- ===== src/Stores.antt =====
-- bin/app/models/base.py: the state behind the model stores, and what every store does with its
-- collection. Clock and random identifiers come from outside, as a `World`.
pub mod Checks
pub mod DataSources
pub mod Platforms
pub mod Queue
pub mod Runs
pub mod Results
pub mod Leases
pub mod Settings
pub mod Maps
pub mod Times
mod Tests
use app_datasource_validator.Prelude.{
  ℕ, zero, suc, String, Bool, not, Option, none, some, List, [], ◌∷◌, ◌++◌, keep, is_some,
  if◌then◌else◌,
}
use app_datasource_validator.Text.{Text}
use app_datasource_validator.Kv.{Collection, find, replace, remove, docs}
use app_datasource_validator.Exec.{
  Error, not_found, value_error, rest_error, key_error, Result, ok, err, Exec, pure, raise, lift,
  modify, ◌>>=◌, ◌>>◌,
}
use app_datasource_validator.Models.DataSource.{DataSource}
use app_datasource_validator.Models.Platform.{Platform}
use app_datasource_validator.Models.Queue.{QueueItem}
use app_datasource_validator.Models.Run.{ValidationRun}
use app_datasource_validator.Models.ValidationResult.{ValidationResult}
use app_datasource_validator.Models.WorkerLease.{WorkerLease}
use app_datasource_validator.Models.Setting.{Setting}

-- The clock's answer to its n-th reading, and the n-th random identifier with a prefix.
pub record World : Type 0 where
  pub time_at : ℕ → ℕ
  pub identifier : String → ℕ → String

-- What is sent to the search head, in order.
pub data JobCall : Type 0 where
  dispatched : Text → JobCall
  cancelled : Option String → JobCall

pub record Stores : Type 0 where
  pub platforms : Collection Platform
  pub datasources : Collection DataSource
  pub runs : Collection ValidationRun
  pub queue : Collection QueueItem
  pub results : Collection ValidationResult
  pub leases : Collection WorkerLease
  pub settings : Collection Setting
  pub clock_reads : ℕ
  pub ids_made : ℕ
  pub job_calls : List JobCall

abbrev pub Action : Type 0 → Type 0
Action A = Exec Stores A

-- Which of the collections a store was constructed over.
pub record Slot (D : Type 0) : Type 0 where
  pub read : Stores → Collection D
  pub write : Collection D → Stores → Stores

module _ {D : Type 0} (slot : Slot D) where
  -- `collection.insert`: KV Store refuses a `_key` that is taken, and KVCollectionClient makes a
  -- SplunkRestError of the refusal.
  unfoldable pub insert : String → D → Action (Unit {0})
  unfolding find
  insert key doc s =
      if is_some (find key (slot.read s))
      then (err rest_error, s)
      else (ok tt, slot.write (slot.read s ++ (key, doc) ∷ []) s)

  unfoldable pub get_raw : String → Action (Option D)
  unfolding find
  get_raw key s = (ok (find key (slot.read s)), s)

  abbrev pub or_not_found : Option D → Result D
  or_not_found none = err not_found
  or_not_found (some doc) = ok doc

  unfoldable pub require_raw : String → Action D
  unfolding find
  require_raw key s = (or_not_found (find key (slot.read s)), s)

  -- The documents that match, in the order of insertion; a caller sorts and limits.
  unfoldable pub query : (D → Bool) → Action (List D)
  unfolding docs
  query matches s = (ok (keep matches (docs (slot.read s))), s)

  -- `collection.update` behind the check that the document is there.
  unfoldable pub update : String → D → Action (Unit {0})
  unfolding require_raw replace ◌>>=◌
  update key doc = do require_raw key; λ s. (ok tt, slot.write (replace key doc (slot.read s)) s)

  unfoldable pub delete : String → Action (Unit {0})
  unfolding remove
  delete key s = (ok tt, slot.write (remove key (slot.read s)) s)

  unfoldable pub delete_query : (D → Bool) → Action (Unit {0})
  delete_query matches s = (ok tt, slot.write (keep (λ e. not (matches e.1)) (slot.read s)) s)

module _ (w : World) where
  unfoldable pub utcnow : Action ℕ
  utcnow s = (ok (w.time_at s.clock_reads), record s { clock_reads = suc s.clock_reads })

  unfoldable pub new_id : String → Action String
  new_id prefix s = (ok (w.identifier prefix s.ids_made), record s { ids_made = suc s.ids_made })

abbrev pub platform_slot : Slot Platform
platform_slot = record { read = λ s. s.platforms; write = λ c s. record s { platforms = c } }

abbrev pub datasource_slot : Slot DataSource
datasource_slot = record { read = λ s. s.datasources; write = λ c s. record s { datasources = c } }

abbrev pub run_slot : Slot ValidationRun
run_slot = record { read = λ s. s.runs; write = λ c s. record s { runs = c } }

abbrev pub queue_slot : Slot QueueItem
queue_slot = record { read = λ s. s.queue; write = λ c s. record s { queue = c } }

abbrev pub result_slot : Slot ValidationResult
result_slot = record { read = λ s. s.results; write = λ c s. record s { results = c } }

abbrev pub lease_slot : Slot WorkerLease
lease_slot = record { read = λ s. s.leases; write = λ c s. record s { leases = c } }

abbrev pub setting_slot : Slot Setting
setting_slot = record { read = λ s. s.settings; write = λ c s. record s { settings = c } }
