-- ===== src/Models/Platform.antt =====
-- The record of bin/app/models/platform.py.
use app_datasource_validator.Prelude.{ℕ, ℤ, String, Bool, Option}

pub record Platform : Type 0 where
  pub platform_id : String
  pub name : String
  pub description : String
  pub sort_order : ℤ
  pub enabled : Bool
  pub created_time : Option ℕ
  pub updated_time : Option ℕ
