-- ===== src/Worker/Tests.antt =====
-- Invocations of the worker at concrete states.
use app_datasource_validator.Prelude.{◌≡◌, refl, String, Option, some, List, [], ◌∷◌, arith}
use app_datasource_validator.Text.{Text, codes, ascii_lower}
use app_datasource_validator.Exec.{Result, ok}
use app_datasource_validator.Controller.Tick.{run_tick}
use app_datasource_validator.Controller.SingleFlight.{AtMost}
use app_datasource_validator.Kv.{find, replace, docs}
use app_datasource_validator.App.Samples.{world, closed_platform, open_platform, account, app_with}
use app_datasource_validator.Worker.{main, read_session_key}
use app_datasource_validator.Worker.SingleFlight.{main-AtMost}

worker_program : Unit {0}
unfolding main read_session_key run_tick find replace docs ascii_lower
worker_program = tt

-- Every input has a session key.
abbrev element : Text → Result (Option Text)
element t = ok (some t)

abbrev argv : List String
argv = "dsv_validation_worker.py" ∷ []

abbrev input : Text
input = codes "key"

-- Another search head holds the lease.
waits : (main world open_platform "sh2" element argv input (app_with (account ∷ []))).0 ≡ 0
unfolding worker_program
waits = refl

-- The server refuses the login.
does_nothing :
    main world closed_platform "sh1" element argv input (app_with (account ∷ []))
    ≡ (0, app_with (account ∷ []))
unfolding worker_program
does_nothing = refl

main-AtMost_example :
    AtMost 1 (main world open_platform "sh1" element argv input (app_with (account ∷ []))).1.stores
unfolding worker_program
main-AtMost_example =
    main-AtMost world open_platform "sh1" element argv input (app_with (account ∷ []))
      (record { bound = omega arith })
