-- ===== src/Lib.antt =====
-- Data Source Validator
--
-- A Splunk app that checks whether data sources still deliver events. Platforms group data sources;
-- a data source has a search string. A validation run puts one queue item per selected data source
-- into a queue, and a single worker, elected by a lease, dispatches one search at a time, polls it
-- on later ticks and records the outcome. Dashboards show the status of each data source and the
-- colour of each platform.
--
-- The parts, and where they are modelled:
--   bin/app/models/*.py              Models (the dataclasses and their status names), Stores (the
--                                    stores, one child module each), Stores.Maps (keys that stand
--                                    once), Stores.Leases.Exclusion, Stores.Times (utcnow_iso,
--                                    parse_iso)
--   bin/app/query_validator.py       Query, Query.Policy, Query.Head
--   bin/search_executor.py           Executor, Executor.Safety
--   bin/validation_controller.py     Controller (create_run, cancel_run, _finalize,
--                                    _advance_run_progress, _find_next_queued), Controller.Tick
--                                    (run_tick, _dispatch_next, _handle_running_item), and the
--                                    proofs: Creation (create_run), Progress and Finalize (the end of
--                                    a search), Edits and Effects (what else may happen meanwhile),
--                                    Stuck (the timeout), SingleFlight and Closed (histories of
--                                    calls), over Frame (the operations that leave the queue alone)
--   bin/app/splunk_client.py         SplunkClient (request, login and the replies, one child module per
--                                    client), Tokenizer (_tokenize_pipeline, _split_top_level)
--   bin/dsv_validation_worker.py     Worker (main, _read_session_key, _run_once), Worker.SingleFlight
--   bin/app/rest_base.py             Rest.Base (RestRequest, handle), Rest (the status codes)
--   bin/rest_validation.py           Rest.Platforms and its child, Rest.DataSources, Rest.Runs, Rest.Rejected
--   bin/rest_query.py                Rest.QueryTest and its child
--   bin/rest_config.py               Rest.Config and its child
--   bin/rest_health.py               Rest.Health
--   to_doc, from_doc of the models   Documents, one child module per collection, over Json
--   bin/app/status_calculator.py     Status and its children
--   bin/app/security.py              Security, Security.Identifiers, Security.Credentials
--   tools/validate_phase1.py         Package.Conf (parse_conf), Package.Report (PASSES, WARNINGS and
--                                    FAILURES), Package.Tree (load_conf), a module for each group of
--                                    checks (Authorize, Endpoints, Access, Manifest, Views, Sources),
--                                    whose children hold what a clean report tells, and
--                                    Package.Validator (main)
--   tools/build_package.py           Package.Build and its children
--   tests/unit/fakes.py              Kv (the in-memory collection that stands for the KV Store; a
--                                    key that is taken is refused with the SplunkRestError that
--                                    KVCollectionClient raises); the entries of storage/passwords
--                                    in Security.Credentials
-- Prelude, Text and Exec are shared: numbers and lists, texts as lists of code points, and the
-- methods that change the state and may raise.
--
-- How the code is read. The controller calls the stores and the executor; the executor calls the
-- validator; every store works on its own collection. All of that state is one record, Stores.
-- A method is a function of it that gives a result or an exception class and the state as it is
-- then, so what was written before an exception stays written. The model follows one process: the
-- methods of a worker are steps that do not interleave with those of another, and histories of
-- whole calls are sequences (Controller.SingleFlight.History). A document of a collection stands as
-- the record that from_doc reads from it. A timestamp is its number of milliseconds, which is what
-- utcnow_iso writes, and a duration in seconds is compared with a thousandfold of it.
--
-- The entry points, Worker and Rest, are steps on App: the stores beside the entries of
-- storage/passwords. They sign in, make the validator over the parser of the search head and call the
-- controller. Documents relates the records of the stores to the JSON documents of the collections.
--
-- Given from outside, as arguments: the clock and the random identifiers (World); splunkd, which
-- answers each request of SplunkClient by a function of it (Server); json.loads and json.dumps; the
-- texts of datetime, of which Documents assumes that they are read back (Formats); str.lower and
-- str.upper, int of a text, str of a value and SHA-256. The controller is proved over any parser
-- and any job client. Nothing is assumed of what is given but what a theorem names. The calls of the
-- job client are kept in the state, in order. The package tools get the working tree as they see it
-- (Package.Tree.Tree, Package.Build.Workspace): which files are there and their lines, the value of
-- app.manifest, the nodes that ast.walk meets, the views, the outcome of unittest, what pathlib says of
-- a path, and whether the secret patterns match a text.
--
-- Fuel: Tokenizer.scan counts the rounds of the loop of _split_top_level, calls on subsearches
-- included, and gets one more than the text has characters. Each round takes at least one
-- character, so that is enough; running out is an answer of its own, apart from those of the
-- program. Rest.QueryTest.wait_for_outcome counts the rounds of its loop; a round adds a second to the
-- time that was waited, whose limit is 25 seconds, so 25 rounds are enough. What the search head says
-- of the job at each of these times is an argument.
-- Package.Conf.parse_lines counts the rounds of parse_conf, each of which takes a line or more,
-- and gets one more than there are lines. All other loops run over finite lists.
--
-- Not modelled: the texts of error messages and of validation results, the parsing of the input's XML
-- and the host name, logging (bin/app/logging_utils.py), and the browser front end. A handler gets the
-- fields of the request that it reads, with the types that the stores expect. Of the package tools: the
-- values that a message is filled with, the removal of cached files, the format of the archive with its
-- digest, and the report file. A file that the validator or the secret scan cannot decode has no
-- contents there; elsewhere files are taken to be readable.
pub mod Package
pub mod Prelude
pub mod Text
pub mod Models
pub mod Status
pub mod Query
pub mod Tokenizer
pub mod Json
pub mod SplunkClient
pub mod Kv
pub mod Exec
pub mod Documents
pub mod Stores
pub mod Executor
pub mod Controller
pub mod Security
pub mod Rest
pub mod App
pub mod Worker
