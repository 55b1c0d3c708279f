-- ===== src/Models/Setting.antt =====
-- The document of bin/app/models/settings.py.
use app_datasource_validator.Prelude.{ℕ, String, Option}
use app_datasource_validator.Json.{Json}

pub record Setting : Type 0 where
  pub setting_id : String
  pub value : Json
  pub updated_time : ℕ
  pub updated_by : Option String
