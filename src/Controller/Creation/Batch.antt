-- ===== src/Controller/Creation/Batch.antt =====
-- The queue items that `create_batch` adds.
use app_datasource_validator.Prelude.{
  ℕ, suc, ◌+◌, ◌≤◌, String, ◌==◌, eq_iff, ◌≡◌, refl, false, none, List, [], ◌∷◌, ◌++◌, arith,
  append_assoc, append-nil, length, sort, inl, inr, Bool-cases,
}
use app_datasource_validator.Kv.{Collection, find, docs}
use app_datasource_validator.Kv.Laws.{find-append_other}
use app_datasource_validator.Exec.{ok, pure}
use app_datasource_validator.Models.DataSource.{DataSource}
use app_datasource_validator.Models.Queue.{QueueItem, queue_status_queued}
use app_datasource_validator.Stores.{World, Stores}
use app_datasource_validator.Stores.Queue
use app_datasource_validator.Stores.Queue.{NewItem, queued_item, by_new_index}
use app_datasource_validator.Controller.{queue_items}

sort-queue_items :
    (idx : ℕ) (dss : List DataSource)
    → sort by_new_index (queue_items idx dss) ≡ queue_items idx dss
unfolding queue_items
sort-queue_items idx [] = refl
sort-queue_items idx (ds ∷ []) = refl
sort-queue_items idx (ds ∷ e ∷ dss) = rw (sort-queue_items (suc idx) (e ∷ dss)) (ground arith)

length-queue_items : (idx : ℕ) (dss : List DataSource) → length (queue_items idx dss) ≡ length dss
unfolding queue_items
length-queue_items idx [] = refl
length-queue_items idx (ds ∷ dss) = ground (arith, length-queue_items (suc idx) dss)

-- The items stand for the data sources, numbered from `idx` on, and wait.
abbrev pub Queued : ℕ → String → List DataSource → List QueueItem → Type 0
Queued idx run_id [] [] = Unit
Queued idx run_id [] (i ∷ is) = ⊥
Queued idx run_id (ds ∷ dss) [] = ⊥
Queued idx run_id (ds ∷ dss) (i ∷ is) =
    (i.run_id ≡ run_id)
    × (i.datasource_id ≡ ds.datasource_id)
    × (i.platform_id ≡ ds.platform_id)
    × (i.order_index ≡ idx)
    × (i.query_hash ≡ ds.query_hash)
    × (i.query_version ≡ ds.query_version)
    × (i.status ≡ queue_status_queued)
    × Queued (suc idx) run_id dss is

module _ (w : World) where
  abbrev pub queue_id : ℕ → String
  queue_id = w.identifier "queue"

  -- Identifiers are not used twice.
  pub record FreshFrom (n : ℕ) (queue : Collection QueueItem) : Type 0 where
    pub distinct : (j k : ℕ) → queue_id j ≡ queue_id k → j ≡ k
    pub unused : (k : ℕ) → n ≤ k → find (queue_id k) queue ≡ none

  unfoldable pub batch : ℕ → String → List NewItem → Collection QueueItem
  batch n run_id [] = []
  batch n run_id (item ∷ items) =
      (queue_id n, queued_item (queue_id n) run_id item) ∷ batch (suc n) run_id items

  batch-Queued :
      (n idx : ℕ) (run_id : String) (dss : List DataSource)
      → Queued idx run_id dss (docs (batch n run_id (queue_items idx dss)))
  unfolding batch docs queue_items
  batch-Queued n idx run_id [] = tt
  batch-Queued n idx run_id (ds ∷ dss) =
      (refl, refl, refl, refl, refl, refl, refl, batch-Queued (suc n) (suc idx) run_id dss)

  later_id-other :
      (n k : ℕ)
      → ((j k : ℕ) → queue_id j ≡ queue_id k → j ≡ k)
      → suc n ≤ k
      → (queue_id n == queue_id k) ≡ false
  later_id-other n k distinct later = elim (Bool-cases (queue_id n == queue_id k)) [
    | inl same ↦
        absurd (omega (arith, later, distinct n k ((eq_iff (queue_id n) (queue_id k)).0 same)))
    | inr other ↦ other
  ]

  FreshFrom-added :
      (n : ℕ) (queue : Collection QueueItem) (i : QueueItem)
      → FreshFrom n queue
      → FreshFrom (suc n) (queue ++ (queue_id n, i) ∷ [])
  FreshFrom-added n queue i f = record {
    distinct = f.distinct;
    unused = λ k later.
        rw
          (find-append_other (queue_id n) (queue_id k) i queue
            (later_id-other n k f.distinct later))
          (f.unused k (omega (arith, later)));
  }

  module _ (s : Stores) where
    abbrev with_queue : Collection QueueItem → ℕ → Stores
    with_queue queue n = record s { queue = queue; ids_made = n }

    create_each-batch :
        (run_id : String) (items : List NewItem) (n : ℕ) (queue : Collection QueueItem)
        → FreshFrom n queue
        → Queue.create_each w run_id items (with_queue queue n) ≡ (
          ok (docs (batch n run_id items)),
          with_queue (queue ++ batch n run_id items) (n + length items),
        )
    unfolding Queue.create_each batch docs pure
    create_each-batch run_id [] n queue f = ground (arith, append-nil queue)
    create_each-batch run_id (item ∷ items) n queue f =
        let i = queued_item (queue_id n) run_id item in
        rw
          (
            f.unused n (omega arith),
            create_each-batch run_id items (suc n) (queue ++ (queue_id n, i) ∷ [])
                (FreshFrom-added n queue i f),
          )
          (ground (arith, append_assoc queue ((queue_id n, i) ∷ []) (batch (suc n) run_id items)))

  -- `create_batch` on the items of `create_run` adds them in their order, all of them waiting.
  pub create_batch-Queued :
      (run_id : String) (dss : List DataSource) (s : Stores)
      → FreshFrom s.ids_made s.queue
      → (added : Collection QueueItem) × (Queue.create_batch w run_id (queue_items 0 dss) s ≡ (
        ok (docs added),
        record s { queue = s.queue ++ added; ids_made = s.ids_made + length (queue_items 0 dss) },
      ))
        × Queued 0 run_id dss (docs added)
  unfolding Queue.create_batch
  create_batch-Queued run_id dss s f = (
    batch s.ids_made run_id (queue_items 0 dss),
    rw (sort-queue_items 0 dss)
        (create_each-batch s run_id (queue_items 0 dss) s.ids_made s.queue f),
    batch-Queued s.ids_made 0 run_id dss,
  )
