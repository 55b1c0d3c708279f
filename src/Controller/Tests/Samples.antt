-- ===== src/Controller/Tests/Samples.antt =====
-- Stores, a clock and a job client for the tests of the controller.
use app_datasource_validator.Prelude.{◌*◌, pos, true, false, none, some, [], ◌∷◌}
use app_datasource_validator.Json.{text}
use app_datasource_validator.Text.{Text, codes, ascii_lower}
use app_datasource_validator.Query.{ParseReply, parsed, parsed_search, default_validator}
use app_datasource_validator.Exec.{ok}
use app_datasource_validator.Models.DataSource.{DataSource, status_pass}
use app_datasource_validator.Models.Platform.{Platform}
use app_datasource_validator.Models.Queue.{QueueItem, queue_status_running}
use app_datasource_validator.Models.Run.{ValidationRun, run_status_running}
use app_datasource_validator.Models.WorkerLease.{WorkerLease, lease_id}
use app_datasource_validator.Stores.{World, Stores}
use app_datasource_validator.Executor.{SearchExecutor, JobClient, ValidationOutcome}

-- A clock that ticks a second at each reading, and identifiers that are their prefix.
abbrev pub world : World
world = record { time_at = λ n. 1000 * n; identifier = λ prefix n. prefix }

abbrev pub client : JobClient
client = record {
  dispatch = λ q e l m. ok "sid1";
  poll = λ sid. ok (record { is_done = true; is_failed = false; result_count = 3; messages = [] });
  cancel = λ sid. ok tt;
}

abbrev pub parser : Text → ParseReply
parser q = parsed (parsed_search ascii_lower (codes "search") (codes "search" ∷ []) [] false none)

abbrev pub executor : SearchExecutor
executor = record {
  query_validator = default_validator ascii_lower parser;
  job_client = client;
  earliest_time = text "-24h@h";
  latest_time = text "now";
  max_time_sec = pos 120;
}

abbrev pub linux : Platform
linux = record {
  platform_id = "linux";
  name = "Linux";
  description = "";
  sort_order = pos 0;
  enabled = true;
  created_time = none;
  updated_time = none;
}

abbrev pub syslog : DataSource
syslog = record {
  datasource_id = "syslog";
  platform_id = "linux";
  name = "Syslog";
  spl_query = "index=os";
  description = "";
  query_hash = "h";
  query_version = 1;
  sort_order = pos 0;
  enabled = true;
  stale_threshold_sec = none;
  current_status = "NOT RUN";
  last_result_time = none;
  last_run_id = none;
  created_time = none;
  updated_time = none;
}

abbrev pub fresh : Stores
fresh = record {
  platforms = ("linux", linux) ∷ [];
  datasources = ("syslog", syslog) ∷ [];
  runs = [];
  queue = [];
  results = [];
  leases = [];
  settings = [];
  clock_reads = 0;
  ids_made = 0;
  job_calls = [];
}

abbrev pub busy_item : QueueItem
busy_item = record {
  queue_id = "q1";
  run_id = "run";
  platform_id = "linux";
  datasource_id = "syslog";
  order_index = 0;
  status = queue_status_running;
  query_hash = "h";
  query_version = 1;
  sid = some "sid1";
  dispatched_time = some 0;
  completed_time = none;
}

abbrev pub active_run : ValidationRun
active_run = record {
  run_id = "run";
  created_time = 0;
  created_by = "admin";
  trigger_type = "manual";
  status = run_status_running;
  total_items = 1;
  completed_items = 0;
  completed_time = none;
}

-- One search is in flight.
abbrev pub busy : Stores
busy = record fresh { runs = ("run", active_run) ∷ []; queue = ("q1", busy_item) ∷ [] }

-- The same, without the data source.
abbrev pub orphaned : Stores
orphaned = record busy { datasources = [] }

abbrev pub pass : ValidationOutcome
pass = record { status = status_pass; result_count = 3; error_message = none }

abbrev pub lease : WorkerLease
lease = record {
  lease_id = lease_id;
  owner = "sh1";
  acquired_time = 0;
  heartbeat_time = 0;
  expires_time = some 30000;
}

abbrev pub leased : Stores
leased = record fresh { leases = (lease_id, lease) ∷ [] }
