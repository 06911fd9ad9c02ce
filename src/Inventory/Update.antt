-- ===== src/Inventory/Update.antt =====
-- `update_operation` and `reverse_operation` of backend/app/services/inventory_service.py.
pub mod Consistent
pub mod Reverse
use materials_manager.Base.{
  ℕ, suc, ◌+◌, pos, min_ℤ, Text, text, Option, none, some, Bool, true, false, List, [], ◌∷◌, ◌++◌,
  not, ◌&&◌, ◌==◌, ltb, map, find, length, truthy, is_some, if◌then◌else◌,
}
use materials_manager.Core.Errors.{ErrorCode, app_error}
use materials_manager.Core.Enums.{OperationType, SourceType, is_outbound, is_mini_program}
use materials_manager.Core.Calendar.{Time}
use materials_manager.Core.Common.{validate_version}
use materials_manager.Core.Quantity.{tenths}
use materials_manager.Core.Tx.{Tx, ◌>>=◌, ◌>>◌, pure, gets, modify, raise_if, or_key_error}
use materials_manager.Model.Stock.{StockMaterial, StockOperation, StockOperationLine}
use materials_manager.Model.Database.{Db, Env}
use materials_manager.Schemas.Operations.{
  OperationLineWrite, OperationCreate, OperationUpdate, ReverseOperationRequest,
}
use materials_manager.Inventory.Validate.{
  plain_error, validate_operation_semantics, lock_and_validate_materials,
}
use materials_manager.Inventory.Replay.{replay_materials}
use materials_manager.Inventory.Rows.{
  operation_snapshot, log_event, find_by_request, get_operation, line_of, material_of,
}
use materials_manager.Inventory.Create.{new_line, stored_source, create_operation}

-- The stored line with what the request says of it.
unfoldable pub edit_line :
    OperationLineWrite → StockMaterial → StockOperationLine → StockOperationLine
edit_line line material stored = record stored {
  quantity = tenths line.quantity;
  remaining_qty = min_ℤ stored.remaining_qty (pos (tenths line.quantity));
  material_name_snapshot = material.name;
  model_spec_snapshot = material.model_spec;
  unit_name_snapshot = material.unit_name;
  version = stored.version + 1;
}

-- The loop over `data.lines`: a line that the operation has is edited, any other is a new row.
unfoldable pub updated_lines :
    List StockMaterial
    → List StockOperationLine
    → ℕ
    → List OperationLineWrite
    → Tx Db (List StockOperationLine)
unfolding edit_line
updated_lines materials existing id [] = pure []
updated_lines materials existing id (line ∷ lines) = do
  material ← or_key_error (material_of line.stock_material_id materials)
  rest ← updated_lines materials existing (suc id) lines
  pure (
      (elim (line_of line.stock_material_id existing) [
        | some stored ↦ edit_line line material stored
        | none ↦ new_line id line material
      ])
      ∷ rest)

abbrev pub edited_operation :
    OperationUpdate → List StockOperationLine → StockOperation → StockOperation
edited_operation request lines item = record item {
  operation_type = request.operation_type;
  occurred_at = request.occurred_at;
  source_type = stored_source request.source_type;
  business_reason = request.business_reason;
  receiver_unit = request.receiver_unit;
  receiver_name = request.receiver_name;
  subitem_no = request.subitem_no;
  version = item.version + 1;
  lines = lines;
}

-- The row of the operation is written; the lines that it no longer has are deleted with it.
abbrev pub replace_operation : StockOperation → StockOperation → StockOperation
replace_operation item op = if op.id == item.id then item else op

-- A line that is edited takes no new id; the counter only has to stay ahead.
abbrev pub put_operation : StockOperation → List OperationLineWrite → Db → Db
put_operation item lines db = record db {
  stock_operations = map (replace_operation item) db.stock_operations;
  next_line_id = db.next_line_id + length lines;
}

abbrev pub old_material_ids : StockOperation → List ℕ
old_material_ids item = map (λ line. line.stock_material_id) item.lines

module _ (env : Env) (item : StockOperation) (request : OperationUpdate) where
  unfoldable pub write_update : List StockMaterial → Tx Db StockOperation
  write_update materials = do
    line_id ← gets (λ db. db.next_line_id)
    lines ← updated_lines materials item.lines line_id request.lines
    modify (put_operation (edited_operation request lines item) request.lines)
    replay_materials env (old_material_ids item ++ map (λ m. m.id) materials)
    updated ← get_operation item.id
    log_event env item.id (text "UPDATED") (some (operation_snapshot item))
        (some (operation_snapshot updated))
    pure updated

  unfoldable pub check_update : Tx Db (List StockMaterial)
  check_update = do
    validate_version (some request.version) item.version
    raise_if
        (is_some item.mini_program_user_name_snapshot && not (is_mini_program request.source_type))
        (plain_error ErrorCode.invalid_source_type)
    raise_if
        (not (is_some item.mini_program_user_name_snapshot) && is_mini_program request.source_type)
        (plain_error ErrorCode.invalid_source_type)
    raise_if (is_outbound request.operation_type && not (truthy request.business_reason))
        (plain_error ErrorCode.business_reason_required)
    validate_operation_semantics request.operation_type request.source_type request.receiver_unit
        request.receiver_name
    lock_and_validate_materials request.lines (old_material_ids item)

  unfoldable pub update_operation : Tx Db StockOperation
  update_operation = do materials ← check_update; write_update materials

abbrev pub opposite : OperationType → OperationType
opposite OperationType.inbound = OperationType.outbound
opposite OperationType.outbound = OperationType.inbound

-- `max(datetime.now(UTC), original.occurred_at + timedelta(microseconds=1))`
abbrev pub reverse_time : Time → Time → Time
reverse_time now occurred_at = if ltb now (occurred_at + 1) then occurred_at + 1 else now

abbrev pub reversal_request : Env → StockOperation → ReverseOperationRequest → OperationCreate
reversal_request env original request = record {
  client_request_id = request.client_request_id;
  occurred_at = reverse_time env.now original.occurred_at;
  source_type = SourceType.reversal;
  business_reason = request.reason;
  receiver_unit = none;
  receiver_name = none;
  subitem_no = original.subitem_no;
  lines = request.lines;
}

unfoldable pub reverse_operation :
    Env → StockOperation → ReverseOperationRequest → Tx Db StockOperation
reverse_operation env original request = do
  existing ← gets (find_by_request request.client_request_id)
  elim existing [
    | some op ↦ pure op
    | none ↦
        create_operation env (reversal_request env original request)
          (opposite original.operation_type) (some original.id) (some original) none
  ]
