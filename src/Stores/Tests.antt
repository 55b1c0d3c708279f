-- ===== src/Stores/Tests.antt =====
-- The operations of a store on one collection.
use app_datasource_validator.Prelude.{◌≡◌, refl}
use app_datasource_validator.Kv.{find, replace, remove}
use app_datasource_validator.Exec.{err, rest_error, not_found}
use app_datasource_validator.Stores.{lease_slot, insert, update, delete}
use app_datasource_validator.App.Samples.{stores, lease}

store_program : Unit {0}
unfolding insert update delete find replace remove
store_program = tt

second_insert_refused :
    (insert lease_slot "a" lease (insert lease_slot "a" lease stores).1).0 ≡ err rest_error
unfolding store_program
second_insert_refused = refl

update_of_missing_refused : update lease_slot "b" lease stores ≡ (err not_found, stores)
unfolding store_program
update_of_missing_refused = refl

inserted_then_deleted :
    (delete lease_slot "a" (insert lease_slot "a" lease stores).1).1.leases ≡ stores.leases
unfolding store_program
inserted_then_deleted = refl
