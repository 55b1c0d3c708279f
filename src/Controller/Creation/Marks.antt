-- ===== src/Controller/Creation/Marks.antt =====
-- The loop of `create_run` that marks the data sources as QUEUED.
use app_datasource_validator.Prelude.{
  suc, String, ◌==◌, eq_iff, ◌≡◌, refl, ◌∙◌, subst, true, none, some, List, [], ◌∷◌, arith, All,
  All-map, is_some, inl, inr, Bool-cases, Option-cases,
}
use app_datasource_validator.Kv.{find, replace}
use app_datasource_validator.Kv.Laws.{find-replace, find-replace_self, is_some-replace}
use app_datasource_validator.Exec.{ok, pure, bind-ok, for_each, ◌>>◌}
use app_datasource_validator.Models.DataSource.{DataSource, status_queued}
use app_datasource_validator.Stores.{World, Stores, Action}
use app_datasource_validator.Stores.DataSources
use app_datasource_validator.Stores.DataSources.{with_status}

-- The data source of an id, as it is stored, waits in the run.
abbrev pub Marked : String → String → Stores → Type 0
Marked run_id id s =
    (ds : DataSource) × (find id s.datasources ≡ some ds)
    × (ds.current_status ≡ status_queued)
    × (ds.last_run_id ≡ some run_id)

abbrev pub IsStored : Stores → DataSource → Type 0
IsStored s ds = is_some (find ds.datasource_id s.datasources) ≡ true

stored :
    (id : String) (s : Stores)
    → is_some (find id s.datasources) ≡ true
    → (ds : DataSource) × (find id s.datasources ≡ some ds)
stored id s h = elim (Option-cases (find id s.datasources)) [
  | inl absent ↦ absurd (ground (arith, absent, h))
  | inr found ↦ found
]

module _ (w : World) (run_id : String) where
  abbrev marked_as : Stores → DataSource → DataSource
  marked_as s ds = with_status status_queued none (some run_id) (w.time_at s.clock_reads) ds

  abbrev marking : DataSource → Action (Unit {0})
  marking ds =
      DataSources.update_status w ds.datasource_id status_queued none (some run_id) >> pure tt

  abbrev after_mark : String → DataSource → Stores → Stores
  after_mark id ds s = record s {
    datasources = replace id (marked_as s ds) s.datasources;
    clock_reads = suc s.clock_reads;
  }

  marking-found :
      (ds old : DataSource) (s : Stores)
      → find ds.datasource_id s.datasources ≡ some old
      → marking ds s ≡ (ok tt, after_mark ds.datasource_id old s)
  unfolding DataSources.update_status
  marking-found ds old s h = ground (arith, h)

  IsStored-after :
      (id : String) (d : DataSource) (s : Stores) (ds : DataSource)
      → IsStored s ds
      → IsStored (after_mark id d s) ds
  IsStored-after id d s ds h =
      rw (is_some-replace id ds.datasource_id (marked_as s d) s.datasources) h

  Marked-after :
      (id : String) (d : DataSource) (s : Stores)
      → find id s.datasources ≡ some d
      → Marked run_id id (after_mark id d s)
  Marked-after id d s h =
      (marked_as s d, find-replace_self id d (marked_as s d) s.datasources h, refl, refl)

  Marked-kept :
      (id other : String) (d : DataSource) (s : Stores)
      → find id s.datasources ≡ some d
      → Marked run_id other s
      → Marked run_id other (after_mark id d s)
  Marked-kept id other d s h (m, found, status, run) = elim (Bool-cases (id == other)) [
    | inl same ↦
        subst (λ o. Marked run_id o (after_mark id d s)) ((eq_iff id other).0 same)
          (Marked-after id d s h)
    | inr apart ↦
        (m, rw (find-replace id other (marked_as s d) s.datasources) (rw apart found), status, run)
  ]

  -- What the loop leaves.
  pub record Loop (dss : List DataSource) (s s' : Stores) : Type 0 where
    pub marks : All (λ ds. Marked run_id ds.datasource_id s') dss
    pub keeps : (id : String) → Marked run_id id s → Marked run_id id s'
    pub same_queue : s'.queue ≡ s.queue
    pub same_runs : s'.runs ≡ s.runs

  Loop-next :
      (ds old : DataSource) (dss : List DataSource) (s s' : Stores)
      → find ds.datasource_id s.datasources ≡ some old
      → Loop dss (after_mark ds.datasource_id old s) s'
      → Loop (ds ∷ dss) s s'
  Loop-next ds old dss s s' found l = record {
    marks = (l.keeps ds.datasource_id (Marked-after ds.datasource_id old s found), l.marks);
    keeps = λ id m. l.keeps id (Marked-kept ds.datasource_id id old s found m);
    same_queue = l.same_queue;
    same_runs = l.same_runs;
  }

  -- If each data source is there, the loop ends without an exception.
  pub for_each-Loop :
      (dss : List DataSource) (s : Stores)
      → All (IsStored s) dss
      → (s' : Stores) × (for_each dss marking s ≡ (ok tt, s')) × Loop dss s s'
  unfolding for_each pure
  for_each-Loop [] s h =
      (s, refl, record { marks = tt; keeps = λ id m. m; same_queue = refl; same_runs = refl })
  for_each-Loop (ds ∷ dss) s (h, hs) =
      let (old, found) = stored ds.datasource_id s h in
      let (s', e, l) =
        for_each-Loop dss (after_mark ds.datasource_id old s)
          (All-map (IsStored-after ds.datasource_id old s) dss hs) in
      (
        s',
        bind-ok (marking ds) (λ _. for_each dss marking) s tt (after_mark ds.datasource_id old s)
              (marking-found ds old s found)
            ∙ e,
        Loop-next ds old dss s s' found l,
      )
