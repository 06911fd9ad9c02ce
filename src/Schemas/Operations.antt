-- ===== src/Schemas/Operations.antt =====
-- backend/app/schemas/__init__.py: the requests that write the stock ledger. A time is given with
-- its zone and read as UTC (`_require_aware_datetime`, `utc_naive`), so it is one moment.
use materials_manager.Base.{
  ℕ, Text, Option, Bool, List, ◌&&◌, ltb, leb, length, all_distinct, all, map,
}
use materials_manager.Core.Enums.{OperationType, SourceType}
use materials_manager.Core.Calendar.{Time}
use materials_manager.Core.Quantity.{Decimal}

pub record OperationLineWrite : Type 0 where
  pub stock_material_id : ℕ
  pub quantity : Decimal

pub record OperationCreate : Type 0 where
  pub client_request_id : Text
  pub occurred_at : Time
  pub source_type : SourceType
  pub business_reason : Text
  pub receiver_unit : Option Text
  pub receiver_name : Option Text
  pub subitem_no : Option Text
  pub lines : List OperationLineWrite

pub record OperationUpdate : Type 0 where
  pub version : ℕ
  pub operation_type : OperationType
  pub occurred_at : Time
  pub source_type : SourceType
  pub business_reason : Text
  pub receiver_unit : Option Text
  pub receiver_name : Option Text
  pub subitem_no : Option Text
  pub lines : List OperationLineWrite

pub record ReverseOperationRequest : Type 0 where
  pub client_request_id : Text
  pub reason : Text
  pub lines : List OperationLineWrite

abbrev pub material_ids : List OperationLineWrite → List ℕ
material_ids = map (λ line. line.stock_material_id)

abbrev pub is_positive : OperationLineWrite → Bool
is_positive line = ltb 0 line.quantity.coefficient

-- The constraints on the lines of all three requests: at least one line, positive quantities, and
-- each material once (`_ensure_unique_operation_materials`).
abbrev pub valid_lines : List OperationLineWrite → Bool
valid_lines lines =
    leb 1 (length lines) && (all is_positive lines && all_distinct (material_ids lines))
