-- ===== src/Stores/Settings/Latest.antt =====
-- What a setting reads after it is set.
use app_datasource_validator.Prelude.{
  suc, String, ◌≡◌, refl, Option, none, some, [], ◌∷◌, ◌++◌, inl, inr, Option-cases, arith,
}
use app_datasource_validator.Kv.{find, replace}
use app_datasource_validator.Kv.Laws.{find-append_new, find-replace_self}
use app_datasource_validator.Exec.{ok}
use app_datasource_validator.Json.{Json}
use app_datasource_validator.Models.Setting.{Setting}
use app_datasource_validator.Stores.{World, Stores}
use app_datasource_validator.Stores.Settings.{get, set_value}

module _ (w : World) (id : String) (value : Json) (by : Option String) (s : Stores) where
  abbrev written : Setting
  written = record {
    setting_id = id;
    value = value;
    updated_time = w.time_at s.clock_reads;
    updated_by = by;
  }

  set-new :
      find id s.settings ≡ none
      → set_value w id value by s ≡ (
        ok value,
        record s { settings = s.settings ++ (id, written) ∷ []; clock_reads = suc s.clock_reads },
      )
  unfolding set_value
  set-new h = ground arith

  set-known :
      (old : Setting)
      → find id s.settings ≡ some old
      → set_value w id value by s ≡ (
        ok value,
        record s { settings = replace id written s.settings; clock_reads = suc s.clock_reads },
      )
  unfolding set_value
  set-known old h = ground arith

  -- Setting a value returns it, whether or not the setting was there, and reading the setting then
  -- returns that value and not the default.
  pub set_value-get :
      (default : Json)
      → ((set_value w id value by s).0 ≡ ok value)
        × ((get id default (set_value w id value by s).1).0 ≡ ok value)
  unfolding get
  set_value-get default = elim (Option-cases (find id s.settings)) [
    | inl new ↦ rw (set-new new) (refl, rw (find-append_new id written s.settings new) refl)
    | inr (old, there) ↦
        rw (set-known old there) (refl, rw (find-replace_self id old written s.settings there) refl)
  ]
