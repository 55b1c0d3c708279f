-- ===== src/Rest/EndpointTests.antt =====
-- The dashboard, the setup page, the test of a query and the envelope at concrete requests.
use app_datasource_validator.Prelude.{
  ℕ, suc, String, eq_iff, ◌≡◌, refl, ap, ◌∙◌, ◌≢◌, true, false, not, ltb, pos, arith, Option, none,
  some, [], ◌∷◌,
}
use app_datasource_validator.Text.{codes}
use app_datasource_validator.Json.{Json, null, text, object, empty_object, field}
use app_datasource_validator.Exec.{Result, ok, err, not_found, value_error}
use app_datasource_validator.SplunkClient.{login}
use app_datasource_validator.Models.WorkerLease.{WorkerLease}
use app_datasource_validator.Stores.Leases
use app_datasource_validator.Stores.Leases.Exclusion.{lease_in}
use app_datasource_validator.Kv.{find}
use app_datasource_validator.App.Samples.{world, closed_platform, stores, account, app_with}
use app_datasource_validator.Rest.Health.{Health, get_health, health-alive}
use app_datasource_validator.Rest.QueryTest.{Progress, wait_for_outcome}
use app_datasource_validator.App.{App, Platform, executor_for}
use app_datasource_validator.Executor.{SearchExecutor}
use app_datasource_validator.Rest.QueryTest.Waiting.{Waited, wait_for_outcome-Ends}
use app_datasource_validator.Rest.Config.{post_config}
use app_datasource_validator.Rest.Config.Unsaved.{IsUnsaved, failed_login-IsUnsaved}
use app_datasource_validator.Rest.Base.{
  RestRequest, rest_request, Handlers, handle, respond, error_object, exception_text,
}

endpoint_program : Unit {0}
unfolding find get_health handle respond post_config wait_for_outcome
endpoint_program = tt

abbrev owner_of : Option WorkerLease → String
owner_of none = ""
owner_of (some l) = l.owner

no_sh2 : ◌≢◌ {A = String} "sh1" "sh2"
no_sh2 e = let same : false ≡ true = (eq_iff "sh1" "sh2").1 e in cc

sh2_not_owner : (l : WorkerLease) → lease_in stores ≡ some l → l.owner ≢ "sh2"
unfolding endpoint_program
sh2_not_owner l e k = absurd (no_sh2 (ap owner_of e ∙ k))

health-alive_example :
    (h : Health) × ((get_health world stores).0 ≡ ok h)
    × (h.worker_alive
        ≡ Leases.held_by_other (lease_in stores) "sh2" (world.time_at stores.clock_reads))
health-alive_example = health-alive world stores "sh2" sh2_not_owner

abbrev tester : SearchExecutor
tester = executor_for closed_platform null null null (pos 30)

-- A job that is done, with three results, from the n-th second on.
abbrev done_from : ℕ → Progress
done_from n waited sid =
    ok (record { is_done = not (ltb waited n); is_failed = false; result_count = 3; messages = [] })

answer_of_third :
    (wait_for_outcome tester (done_from 2) (some "sid1") 25 0 stores).0
    ≡ ok (some (record { status = "PASS"; result_count = 3; error_message = none }))
unfolding endpoint_program
answer_of_third = refl

no_answer_in_time : (wait_for_outcome tester (done_from 25) (some "sid1") 40 0 stores).0 ≡ ok none
unfolding endpoint_program
no_answer_in_time = refl

wait_for_outcome-Ends_example :
    Waited tester
      (done_from 2)
      (some "sid1")
      stores
      0
      25
      (wait_for_outcome tester (done_from 2) (some "sid1") 25 0 stores)
wait_for_outcome-Ends_example =
    wait_for_outcome-Ends tester (done_from 2) (some "sid1") stores 25 (omega arith)

abbrev refused_setup : Platform → Result String × App
refused_setup p =
    post_config world p (λ n. "") (λ j. "") (λ r u. u) "svc" "wrong" empty_object none
      (app_with (account ∷ []))

refused_is_value_error : refused_setup closed_platform ≡ (err value_error, app_with (account ∷ []))
unfolding endpoint_program login
refused_is_value_error = refl

failed_login-IsUnsaved_example :
    IsUnsaved world closed_platform
      (λ n. "")
      (λ j. "")
      (λ r u. u)
      "svc"
      "wrong"
      empty_object
      none
      (app_with (account ∷ []))
      (refused_setup closed_platform)
unfolding login
failed_login-IsUnsaved_example =
    failed_login-IsUnsaved world closed_platform (λ n. "") (λ j. "") (λ r u. u) "svc" "wrong"
      empty_object none (app_with (account ∷ [])) (λ key e. cc)

-- Every text is read as a DELETE request.
abbrev loads : String → Option Json
loads t =
    some (
      object (field "method" (text "DELETE") (field "path" (text "/platforms/linux") empty_object)))

-- A class that only deletes, and finds nothing.
abbrev handlers : Handlers ℕ String
handlers = record {
  get = none;
  post = none;
  put = none;
  delete = some (λ request s. (err not_found, suc s));
}

abbrev deletion : RestRequest
deletion = record {
  method = codes "DELETE";
  path_segments = codes "platforms" ∷ codes "linux" ∷ [];
  query = [];
  session = object empty_object;
  session_key = null;
  user = null;
  payload = object empty_object;
}

read_deletion :
    rest_request loads
      (λ t. t)
      (object
        (field "method" (text "DELETE") (field "path" (text "/platforms/linux") empty_object)))
    ≡ ok deletion
unfolding endpoint_program
read_deletion = refl

not_found_is_404 :
    handle loads (λ t. t) handlers "{}" 0
    ≡ (ok (record { status = 404; body = error_object (exception_text not_found) }), 1)
unfolding endpoint_program
not_found_is_404 = refl
