-- ===== src/MiniProgram/Warehouse/Outbound.antt =====
-- The outbound operations of the mini program: backend/app/services/mini_program_service.py, from
-- `_outbound_read` on.
pub mod Balance
pub mod Reads
use materials_manager.Base.{
  ℕ, ℤ, Text, text_eq, Option, none, some, Bool, true, false, List, [], ◌∷◌, ◌++◌, not, ◌&&◌, ◌||◌,
  ◌==◌, ltb, find, keep, any, map, length, take, truthy, truthy?, or_none, is_some, if◌then◌else◌,
}
use materials_manager.Core.Errors.{ErrorCode, app_error, not_found}
use materials_manager.Core.Enums.{OperationType, SourceType, is_outbound}
use materials_manager.Core.Calendar.{Time}
use materials_manager.Core.Quantity.{Decimal}
use materials_manager.Core.Paging.{order_rows, page_of}
use materials_manager.Core.Tx.{Tx, ◌>>=◌, ◌>>◌, pure, raise, gets, raise_if, or_raise}
use materials_manager.Model.Stock.{
  StockMaterial, StockOperation, StockOperationLine, MiniProgramUser,
}
use materials_manager.Model.Database.{Db, Env}
use materials_manager.Schemas.Operations.{OperationCreate}
use materials_manager.Inventory.Create.{create_operation}
use materials_manager.MiniProgram.{is_lite_secondary_warehouse}
use materials_manager.MiniProgram.Warehouse.{get_material}

pub record MiniProgramOutboundCreate : Type 0 where
  pub client_request_id : Text
  pub material_uuid : Text
  pub occurred_at : Time
  pub quantity : Decimal
  pub business_reason : Text
  pub receiver_unit : Text
  pub subitem_no : Text

pub record MiniProgramOutboundRead : Type 0 where
  pub operation_id : ℕ
  pub operation_no : Text
  pub material_uuid : Text
  pub material_name : Text
  pub model_spec : Text
  pub unit_name : Text
  pub quantity : ℕ
  pub before_qty : ℤ
  pub after_qty : ℤ
  pub occurred_at : Time
  pub business_reason : Text
  pub receiver_unit : Option Text
  pub receiver_name : Text
  pub subitem_no : Option Text
  pub executed_by : Text

-- `value or other`
abbrev or_text : Option Text → Text → Text
or_text value other = if truthy? value then (elim value [ some s ↦ s | none ↦ other ]) else other

abbrev outbound_read :
    StockOperation → StockOperationLine → StockMaterial → MiniProgramUser → MiniProgramOutboundRead
outbound_read item line material user = record {
  operation_id = item.id;
  operation_no = item.operation_no;
  material_uuid = material.uuid;
  material_name = line.material_name_snapshot;
  model_spec = line.model_spec_snapshot;
  unit_name = line.unit_name_snapshot;
  quantity = line.quantity;
  before_qty = line.before_qty;
  after_qty = line.after_qty;
  occurred_at = item.occurred_at;
  business_reason = item.business_reason;
  receiver_unit = item.receiver_unit;
  receiver_name = or_text item.receiver_name [];
  subitem_no = item.subitem_no;
  executed_by = or_text item.mini_program_user_name_snapshot user.display_name;
}

-- The line of an outbound operation of the material that has no other line.
abbrev pub only_line : ℕ → StockOperation → Option StockOperationLine
only_line material_id item = elim item.lines [
  | [] ↦ none
  | line ∷ more ↦ elim more [
    | [] ↦
        if is_outbound item.operation_type && line.stock_material_id == material_id
        then some line
        else none
    | other ∷ rest ↦ none
  ]
]

-- `_outbound_read`
unfoldable pub read_outbound :
    StockOperation → StockMaterial → MiniProgramUser → Tx Db MiniProgramOutboundRead
read_outbound item material user = do
  line ←
      or_raise (only_line material.id item)
        (app_error ErrorCode.client_request_id_conflict (some 409))
  pure (outbound_read item line material user)

unfoldable pub ensure_not_lite_secondary_warehouse : Tx Db (Unit {0})
ensure_not_lite_secondary_warehouse = do
  is_lite ← gets is_lite_secondary_warehouse
  raise_if is_lite (app_error ErrorCode.outbound_disabled (some 403))

-- `_require_full_secondary_warehouse` of backend/app/api/deps.py
unfoldable pub require_full_secondary_warehouse : Tx Db (Unit {0})
require_full_secondary_warehouse = do
  is_lite ← gets is_lite_secondary_warehouse
  raise_if is_lite (app_error ErrorCode.secondary_warehouse_lite_mode (some 403))

abbrev pub outbound_request :
    MiniProgramOutboundCreate → StockMaterial → MiniProgramUser → OperationCreate
outbound_request request material user = record {
  client_request_id = request.client_request_id;
  occurred_at = request.occurred_at;
  source_type = SourceType.mini_program;
  business_reason = request.business_reason;
  receiver_unit = or_none (some request.receiver_unit);
  receiver_name = some user.display_name;
  subitem_no = some request.subitem_no;
  lines = record { stock_material_id = material.id; quantity = request.quantity } ∷ [];
}

unfoldable pub create_outbound :
    Env → MiniProgramOutboundCreate → MiniProgramUser → Tx Db MiniProgramOutboundRead
create_outbound env request user = do
  ensure_not_lite_secondary_warehouse
  material ← get_material request.material_uuid
  operation ←
      create_operation env (outbound_request request material user) OperationType.outbound none none
        (some user)
  read_outbound operation material user

abbrev is_scanned : Text → StockOperation → Bool
is_scanned operation_no op =
    text_eq op.operation_no operation_no
    && (is_outbound op.operation_type && is_some op.mini_program_user_name_snapshot)

abbrev single_line : Option StockOperation → Option (StockOperation × StockOperationLine)
single_line none = none
single_line (some op) = elim op.lines [
  | [] ↦ none
  | line ∷ more ↦ elim more [ [] ↦ some (op, line) | other ∷ rest ↦ none ]
]

unfoldable pub get_outbound_by_no : Text → MiniProgramUser → Tx Db MiniProgramOutboundRead
get_outbound_by_no operation_no user = do
  operation ← gets (λ db. find (is_scanned operation_no) db.stock_operations)
  found ← or_raise (single_line operation) not_found
  row ← gets (λ db. find (λ m. m.id == found.1.stock_material_id) db.stock_materials)
  material ← or_raise row not_found
  read_outbound found.0 material user

pub record MiniProgramOperationRead : Type 0 where
  pub operation_id : ℕ
  pub operation_no : Text
  pub operation_type : OperationType
  pub material_name : Text
  pub model_spec : Text
  pub unit_name : Text
  pub quantity : ℕ
  pub before_qty : ℤ
  pub after_qty : ℤ
  pub occurred_at : Time
  pub business_reason : Text
  pub receiver_unit : Option Text
  pub receiver_name : Option Text
  pub subitem_no : Option Text
  pub executed_by : Option Text

-- `item.mini_program_user_name_snapshot or item.receiver_name`
abbrev pub executed_by : StockOperation → Option Text
executed_by item =
    if truthy? item.mini_program_user_name_snapshot
    then item.mini_program_user_name_snapshot
    else item.receiver_name

abbrev pub operation_row : StockOperation → StockOperationLine → MiniProgramOperationRead
operation_row item line = record {
  operation_id = item.id;
  operation_no = item.operation_no;
  operation_type = item.operation_type;
  material_name = line.material_name_snapshot;
  model_spec = line.model_spec_snapshot;
  unit_name = line.unit_name_snapshot;
  quantity = line.quantity;
  before_qty = line.before_qty;
  after_qty = line.after_qty;
  occurred_at = item.occurred_at;
  business_reason = item.business_reason;
  receiver_unit = item.receiver_unit;
  receiver_name = item.receiver_name;
  subitem_no = item.subitem_no;
  executed_by = executed_by item;
}

unfoldable pub operation_read_rows : StockOperation → List MiniProgramOperationRead
operation_read_rows item = map (operation_row item) item.lines

-- `==` of two columns of text is the comparison of the database, which has a collation.
module _ (same_text : Text → Text → Bool) where
  abbrev pub is_name : Text → Option Text → Bool
  is_name name none = false
  is_name name (some s) = same_text s name

  abbrev pub of_user : MiniProgramUser → StockOperation → Bool
  of_user user op =
      is_name user.display_name op.receiver_name
      || is_name user.display_name op.mini_program_user_name_snapshot

-- `order_by(StockOperation.occurred_at.desc(), StockOperation.id.desc())`
abbrev pub latest : StockOperation → StockOperation → Bool
latest a b = ltb b.occurred_at a.occurred_at || (a.occurred_at == b.occurred_at && ltb b.id a.id)

abbrev pub rows_of : List StockOperation → List MiniProgramOperationRead
rows_of [] = []
rows_of (op ∷ ops) = operation_read_rows op ++ rows_of ops

-- The total counts operations, and the rows are their lines.
unfoldable pub list_operations_by_user :
    (Text → Text → Bool) → MiniProgramUser → ℕ → ℕ → Db → List MiniProgramOperationRead × ℕ
list_operations_by_user same_text user page page_size db =
    let mine = keep (of_user same_text user) db.stock_operations in
    (rows_of (page_of page page_size (order_rows latest mine)), length mine)
