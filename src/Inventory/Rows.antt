-- ===== src/Inventory/Rows.antt =====
-- The rows that the operations of backend/app/services/inventory_service.py read and write: the
-- snapshot of an operation for the event log, and its look-ups.
use materials_manager.Base.{
  ℕ, Text, text, text_eq, Option, Bool, List, ◌∷◌, ◌==◌, find, map, is_some, if◌then◌else◌,
}
use materials_manager.Core.Errors.{not_found}
use materials_manager.Core.Enums.{SourceType}
use materials_manager.Core.Tx.{Tx, ◌>>=◌, gets, modify, or_raise}
use materials_manager.Model.Stock.{
  StockMaterial, StockOperation, StockOperationLine, OperationSnapshot,
}
use materials_manager.Model.Database.{Db, Env}

-- `operation_source_type` of backend/app/services/common.py: an operation of the mini program is
-- stored as a manual one, and is known by the user's name.
unfoldable pub operation_source_type : StockOperation → SourceType
operation_source_type item =
    if is_some item.mini_program_user_name_snapshot
    then SourceType.mini_program
    else item.source_type

unfoldable pub operation_snapshot : StockOperation → OperationSnapshot
unfolding operation_source_type
operation_snapshot item = record {
  operation_type = item.operation_type;
  occurred_at = item.occurred_at;
  source_type = operation_source_type item;
  business_reason = item.business_reason;
  receiver_unit = item.receiver_unit;
  receiver_name = item.receiver_name;
  subitem_no = item.subitem_no;
  mini_program_user_name = item.mini_program_user_name_snapshot;
  lines = map (λ line. (line.stock_material_id, line.quantity)) item.lines;
}

-- `log_event` of backend/app/services/common.py, for an operation.
unfoldable pub log_event :
    Env → ℕ → Text → Option OperationSnapshot → Option OperationSnapshot → Tx Db (Unit {0})
log_event env business_id action before_data after_data = modify λ db. record db {
  event_logs =
      record {
        business_type = text "STOCK_OPERATION";
        business_id = business_id;
        action = action;
        occurred_at = env.now;
        before_data = before_data;
        after_data = after_data;
      }
      ∷ db.event_logs;
}

-- `select(StockOperation).where(StockOperation.client_request_id == ...)`
abbrev pub by_request : Text → StockOperation → Bool
by_request client_request_id op = text_eq op.client_request_id client_request_id

abbrev pub find_by_request : Text → Db → Option StockOperation
find_by_request client_request_id db = find (by_request client_request_id) db.stock_operations

-- `get_operation`: `session.get` by the primary key.
abbrev pub has_id : ℕ → StockOperation → Bool
has_id id op = op.id == id

unfoldable pub get_operation : ℕ → Tx Db StockOperation
get_operation id = do
  found ← gets (λ db. find (has_id id) db.stock_operations)
  or_raise found not_found

-- The line of a material in a dictionary of lines by material.
abbrev pub line_of : ℕ → List StockOperationLine → Option StockOperationLine
line_of material_id lines = find (λ line. line.stock_material_id == material_id) lines

abbrev pub material_of : ℕ → List StockMaterial → Option StockMaterial
material_of material_id = find (λ m. m.id == material_id)
