-- ===== src/Worker/SingleFlight.antt =====
-- Invocations of the worker: what they keep.
use app_datasource_validator.Prelude.{
  ℕ, String, Bool, Option, none, some, List, inl, inr, Bool-cases,
}
use app_datasource_validator.Text.{Text}
use app_datasource_validator.Json.{Json}
use app_datasource_validator.Exec.{rest_error, Result, ok, err}
use app_datasource_validator.Exec.Keeps.{Keeps, keeps_rules, Keeps-bind, Keeps-pure, Keeps-raise}
use app_datasource_validator.SplunkClient.{Reply, replied, failed, crashed, login}
use app_datasource_validator.Security.Credentials.{Credential}
use app_datasource_validator.Stores.{World, Stores, Action}
use app_datasource_validator.Stores.Settings
use app_datasource_validator.Executor.{SearchExecutor}
use app_datasource_validator.Controller.Tick.{run_tick}
use app_datasource_validator.Controller.SingleFlight.{AtMost}
use app_datasource_validator.Controller.SingleFlight.Ticks.{run_tick-AtMost}
use app_datasource_validator.App.{App, Platform, on_stores, service_credential}
use app_datasource_validator.Worker.{
  run_once, main, tick_as, signed_in, with_credential, exit_code, with_key, is_scheme,
  read_session_key,
}

-- What an action of the stores keeps, it keeps as a step of the program.
on_stores-Keeps :
    {A : Type 0} {P : Stores → Type 0} (m : Action A)
    → Keeps P m
    → Keeps (λ (s : App). P s.stores) (on_stores m)
unfolding on_stores
on_stores-Keeps m k = record { from = λ s h. k.from s.stores h }

get-Keeps : {P : Stores → Type 0} (id : String) (default : Json) → Keeps P (Settings.get id default)
unfolding Settings.get
get-Keeps id default = record { from = λ s h. h }

service_credential-Keeps : {P : App → Type 0} → Keeps P service_credential
unfolding service_credential
service_credential-Keeps = record { from = λ s h. h }

module _ (w : World) (p : Platform) (host : String) where
  abbrev InFlight : App → Type 0
  InFlight s = AtMost 1 s.stores

  setting-Keeps :
      (id : String) (default : Json) → Keeps InFlight (on_stores (Settings.get id default))
  setting-Keeps id default =
      on_stores-Keeps {P = AtMost 1} (Settings.get id default) (get-Keeps id default)

  tick-Keeps :
      (x : SearchExecutor) (timeout ttl : ℕ) (is_admin : Bool)
      → Keeps InFlight (on_stores (run_tick w x timeout host ttl is_admin))
  tick-Keeps x timeout ttl is_admin =
      on_stores-Keeps {P = AtMost 1} (run_tick w x timeout host ttl is_admin)
        (run_tick-AtMost w x timeout is_admin host ttl)

  tick_as-Keeps : (key : Json) → Keeps InFlight (tick_as w p host key)
  unfolding tick_as
  tick_as-Keeps key = search (keeps_rules, setting-Keeps, tick-Keeps) depth 12

  signed_in-Keeps : (r : Reply Json) → Keeps InFlight (signed_in w p host r)
  signed_in-Keeps (replied key) = tick_as-Keeps key
  signed_in-Keeps (failed status) = Keeps-pure tt
  signed_in-Keeps crashed = Keeps-raise rest_error

  credential-Keeps : (c : Option Credential) → Keeps InFlight (with_credential w p host c)
  credential-Keeps none = Keeps-pure tt
  credential-Keeps (some c) = signed_in-Keeps (login p.server c.username c.clear_password)

  run_once-Keeps : Keeps InFlight (run_once w p host)
  unfolding run_once
  run_once-Keeps = Keeps-bind _ _ service_credential-Keeps credential-Keeps

  exit_code-Keeps :
      (r : Result (Unit {0}) × App) → AtMost 1 r.1.stores → AtMost 1 (exit_code w p host r).1.stores
  exit_code-Keeps (ok _, s) h = h
  exit_code-Keeps (err _, s) h = h

  with_key-Keeps :
      (k : Result Text) (s : App) → AtMost 1 s.stores → AtMost 1 (with_key w p host k s).1.stores
  with_key-Keeps (err e) s h = h
  with_key-Keeps (ok key) s h = exit_code-Keeps (run_once w p host s) (run_once-Keeps.from s h)

  -- Single flight over whole invocations of the worker: if at most one queue item is RUNNING before
  -- one, then at most one is after it, whatever its arguments and its input, the settings and the
  -- server are, and whether it exits with 0 or 1.
  pub main-AtMost :
      (element : Text → Result (Option Text)) (argv : List String) (stdin : Text) (s : App)
      → AtMost 1 s.stores
      → AtMost 1 (main w p host element argv stdin s).1.stores
  unfolding main
  main-AtMost element argv stdin s h = elim (Bool-cases (is_scheme argv)) [
    | inl scheme ↦ rw scheme h
    | inr tick ↦ rw tick (with_key-Keeps (read_session_key element stdin) s h)
  ]
