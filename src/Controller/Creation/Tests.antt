-- ===== src/Controller/Creation/Tests.antt =====
-- A run over two data sources.
use Prim.Native.Char.{code}
use app_datasource_validator.Prelude.{
  ℕ, zero, suc, pos, String, ◌≡◌, refl, sym, true, ap, ◌∙◌, Option, none, some, [], ◌∷◌, eqb, map,
  if◌then◌else◌,
}
use app_datasource_validator.Kv.{find, docs}
use app_datasource_validator.Exec.{ok}
use app_datasource_validator.Models.DataSource.{DataSource}
use app_datasource_validator.Models.Platform.{Platform}
use app_datasource_validator.Models.Queue.{QueueItem}
use app_datasource_validator.Models.Run.{ValidationRun}
use app_datasource_validator.Stores.{World, Stores}
use app_datasource_validator.App.Samples
use app_datasource_validator.Controller.{create_run, select}
use app_datasource_validator.Controller.Creation.{Created, create_run_lem}

-- Identifiers are made of strokes.
abbrev strokes : ℕ → String
strokes zero = "T"
strokes (suc n) = String.◌∷◌ "|" (strokes n)

abbrev one_more : Option ℕ → Option ℕ
one_more none = none
one_more (some n) = some (suc n)

abbrev count_strokes : String → Option ℕ
count_strokes String.[] = none
count_strokes (String.◌∷◌ c s) = if eqb (code c) 124 then one_more (count_strokes s) else some 0

count_strokes-strokes : (n : ℕ) → count_strokes (strokes n) ≡ some n
count_strokes-strokes zero = refl
count_strokes-strokes (suc n) = rw (count_strokes-strokes n) refl

strokes-distinct : (j k : ℕ) → strokes j ≡ strokes k → j ≡ k
strokes-distinct j k e =
    let same : some j ≡ some k =
      sym (count_strokes-strokes j) ∙ ap count_strokes e ∙ count_strokes-strokes k in
    cc

abbrev world : World
world = record { time_at = λ n. n; identifier = λ prefix n. strokes n }

abbrev linux : Platform
linux = record {
  platform_id = "linux";
  name = "Linux";
  description = "";
  sort_order = pos 0;
  enabled = true;
  created_time = none;
  updated_time = none;
}

abbrev syslog : DataSource
syslog = record {
  datasource_id = "syslog";
  platform_id = "linux";
  name = "Syslog";
  spl_query = "index=os";
  description = "";
  query_hash = "h";
  query_version = 1;
  sort_order = pos 2;
  enabled = true;
  stale_threshold_sec = none;
  current_status = "NOT RUN";
  last_result_time = none;
  last_run_id = none;
  created_time = none;
  updated_time = none;
}

abbrev audit : DataSource
audit = record syslog { datasource_id = "audit"; name = "Audit"; sort_order = pos 1 }

abbrev stores : Stores
stores = record Samples.stores {
  platforms = ("linux", linux) ∷ [];
  datasources = ("syslog", syslog) ∷ ("audit", audit) ∷ [];
  queue = [];
}

creation_program : Unit {0}
unfolding create_run find docs
creation_program = tt

-- The items are in the order of the data sources' `sort_order`.
ordered :
    map
      (λ (i : QueueItem). i.datasource_id)
      (docs (create_run world "admin" "manual" none stores).1.queue)
    ≡ "audit" ∷ "syslog" ∷ []
unfolding creation_program
ordered = refl

create_run_lem_example :
    (run : ValidationRun) × (s' : Stores) × (create_run world "admin" "manual" none stores
      ≡ (ok run, s'))
    × Created (linux ∷ []) (select (linux ∷ []) none (audit ∷ syslog ∷ [])) stores s' run
unfolding creation_program
create_run_lem_example =
    create_run_lem world "admin" "manual" none (linux ∷ []) (audit ∷ syslog ∷ []) stores refl refl
      refl (refl, (refl, tt))
      (record {
        run_unused = refl;
        queue_unused = record { distinct = strokes-distinct; unused = λ k later. refl };
      })
