-- ===== src/Model/Accounts.antt =====
-- backend/app/models/__init__.py: the users of the management interface, and the settings that the modelled
-- services read.
use materials_manager.Base.{ℕ, Text, Bool}
use materials_manager.Core.Enums.{Role, SecondaryWarehouseMode}

pub record User : Type 0 where
  pub id : ℕ
  pub username : Text
  pub password_hash : Text
  pub api_token_hash : Text
  pub api_token_enc : Text
  pub display_name : Text
  pub role : Role
  pub enabled : Bool
  pub version : ℕ

-- What the services read of `AiSearchConfig`, the setting of backend/app/services/ai_search_service.py.
pub record AiSearchConfig : Type 0 where
  pub mini_program_registration_enabled : Bool
  pub mini_program_new_user_enabled : Bool
  pub secondary_warehouse_mode : SecondaryWarehouseMode
