-- ===== src/App/Samples.antt =====
-- A server, a platform and states of the program for the tests of the entry points.
use app_datasource_validator.Prelude.{pos, none, some, [], ◌∷◌}
use app_datasource_validator.Text.{ascii_lower}
use app_datasource_validator.Json.{text, object, empty_object, field}
use app_datasource_validator.Exec.{ok, err, rest_error}
use app_datasource_validator.SplunkClient.{Server, response, valid, empty}
use app_datasource_validator.Executor.{JobClient}
use app_datasource_validator.Security.Credentials.{Entry, Passwords}
use app_datasource_validator.Stores.{World, Stores}
use app_datasource_validator.Models.Queue.{QueueItem}
use app_datasource_validator.Models.WorkerLease.{WorkerLease, lease_id}
use app_datasource_validator.App.{App, Platform}

abbrev pub world : World
world = record { time_at = λ n. n; identifier = λ prefix n. prefix }

-- Every login is refused with 401.
abbrev pub closed : Server
closed r = response (some 401) empty

abbrev pub idle_jobs : JobClient
idle_jobs = record {
  dispatch = λ query earliest latest limit. err rest_error;
  poll = λ sid. err rest_error;
  cancel = λ sid. ok tt;
}

abbrev platform_on : Server → Platform
platform_on server = record {
  server = server;
  session = λ key. server;
  jobs = λ s. idle_jobs;
  lower = ascii_lower;
  as_string = λ t. "";
  to_int = λ t. some (pos 60);
}

abbrev pub closed_platform : Platform
closed_platform = platform_on closed

-- Every login gives a key.
abbrev pub open_platform : Platform
open_platform =
    platform_on
      (λ r. response (some 200) (valid (object (field "sessionKey" (text "key") empty_object))))

abbrev pub running_item : QueueItem
running_item = record {
  queue_id = "q1";
  run_id = "r1";
  platform_id = "linux";
  datasource_id = "syslog";
  order_index = 0;
  status = "RUNNING";
  query_hash = "h";
  query_version = 1;
  sid = some "sid1";
  dispatched_time = some 1000;
  completed_time = none;
}

abbrev pub lease : WorkerLease
lease = record {
  lease_id = lease_id;
  owner = "sh1";
  acquired_time = 0;
  heartbeat_time = 0;
  expires_time = some 30000;
}

-- One search runs, and `sh1` holds the lease.
abbrev pub stores : Stores
stores = record {
  platforms = [];
  datasources = [];
  runs = [];
  queue = ("q1", running_item) ∷ [];
  results = [];
  leases = (lease_id, lease) ∷ [];
  settings = [];
  clock_reads = 0;
  ids_made = 0;
  job_calls = [];
}

abbrev pub account : Entry
account = record {
  name = "datasource_validator:svc:";
  username = "svc";
  clear_password = "secret";
  realm = some "datasource_validator";
}

abbrev pub app_with : Passwords → App
app_with passwords = record { stores = stores; passwords = passwords }
