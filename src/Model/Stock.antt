-- ===== src/Model/Stock.antt =====
-- backend/app/models/__init__.py: the tables of the secondary warehouse. Quantities are in tenths.
use materials_manager.Base.{ℕ, ℤ, Text, Option, Bool, List}
use materials_manager.Core.Enums.{OperationType, SourceType}
use materials_manager.Core.Calendar.{Time}

pub record StockReplenishmentPolicy : Type 0 where
  pub minimum_qty : ℤ
  pub enabled : Bool
  pub version : ℕ

-- `images` holds the file ids in the order of `sort_order`.
pub record StockMaterial : Type 0 where
  pub id : ℕ
  pub uuid : Text
  pub name : Text
  pub name_id : Option Text
  pub alias : Option Text
  pub model_spec : Text
  pub unit_name : Text
  pub remark : Option Text
  pub identity_hash : Text
  pub replenishment_policy : Option StockReplenishmentPolicy
  pub images : List Text
  pub version : ℕ

pub record StockBalance : Type 0 where
  pub stock_material_id : ℕ
  pub quantity : ℤ
  pub version : ℕ
  pub updated_at : Time

pub record StockOperationLine : Type 0 where
  pub id : ℕ
  pub stock_material_id : ℕ
  pub quantity : ℕ
  pub remaining_qty : ℤ
  pub before_qty : ℤ
  pub after_qty : ℤ
  pub material_name_snapshot : Text
  pub model_spec_snapshot : Text
  pub unit_name_snapshot : Text
  pub version : ℕ

-- With the lines of the relationship `lines`; a line has one operation, and is deleted with it.
pub record StockOperation : Type 0 where
  pub id : ℕ
  pub operation_no : Text
  pub operation_type : OperationType
  pub occurred_at : Time
  pub business_reason : Text
  pub receiver_unit : Option Text
  pub receiver_name : Option Text
  pub subitem_no : Option Text
  pub source_type : SourceType
  pub reversal_of_id : Option ℕ
  pub client_request_id : Text
  pub mini_program_user_name_snapshot : Option Text
  pub lines : List StockOperationLine
  pub version : ℕ

-- `_operation_snapshot` of backend/app/services/inventory_service.py: what the event log keeps.
pub record OperationSnapshot : Type 0 where
  pub operation_type : OperationType
  pub occurred_at : Time
  pub source_type : SourceType
  pub business_reason : Text
  pub receiver_unit : Option Text
  pub receiver_name : Option Text
  pub subitem_no : Option Text
  pub mini_program_user_name : Option Text
  pub lines : List (ℕ × ℕ)

pub record BusinessEventLog : Type 0 where
  pub business_type : Text
  pub business_id : ℕ
  pub action : Text
  pub occurred_at : Time
  pub before_data : Option OperationSnapshot
  pub after_data : Option OperationSnapshot

pub record MiniProgramIdentity : Type 0 where
  pub app_id : Text
  pub wechat_openid : Text

-- `identities` holds the rows of `mini_program_identity` that belong to the user.
pub record MiniProgramUser : Type 0 where
  pub id : ℕ
  pub display_name : Text
  pub department_name : Text
  pub enabled : Bool
  pub identities : List MiniProgramIdentity
  pub version : ℕ
