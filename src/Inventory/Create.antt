-- ===== src/Inventory/Create.antt =====
-- `create_operation` of backend/app/services/inventory_service.py, with what it reads and writes.
pub mod Rule
pub mod Consistent
pub mod Balance
pub mod Idempotent
use materials_manager.Base.{
  ℕ, suc, ◌+◌, ℤ, pos, ◌+ℤ◌, ◌-ℤ◌, ltb_ℤ, Text, text, Option, none, some, Bool, true, false, List,
  [], ◌∷◌, ◌++◌, not, ◌&&◌, ◌==◌, length, map, truthy, is_some, if◌then◌else◌,
}
use materials_manager.Core.Errors.{ErrorCode, app_error}
use materials_manager.Core.Enums.{
  OperationType, SourceType, WebhookEventType, is_outbound, is_mini_program, is_reversal,
}
use materials_manager.Core.Calendar.{Time, date_of, format_date, zero_padded}
use materials_manager.Core.Quantity.{tenths, validate_quantity_precision}
use materials_manager.Core.Tx.{
  Tx, ◌>>=◌, ◌>>◌, pure, gets, modify, raise_if, or_raise, or_key_error, for_each, actions,
}
use materials_manager.Model.Stock.{
  StockMaterial, StockOperation, StockOperationLine, MiniProgramUser,
}
use materials_manager.Model.Webhook.{EventMaterial, StockEvent, EventData}
use materials_manager.Model.Database.{Db, Env}
use materials_manager.Schemas.Operations.{OperationLineWrite, OperationCreate}
use materials_manager.Webhook.{enqueue_event}
use materials_manager.Inventory.Validate.{
  plain_error, validate_operation_semantics, lock_and_validate_materials, sorted_set,
}
use materials_manager.Inventory.Replay.{
  precedes, insert_ordered, ledger_order, moved, replay_line, replay_lines, replay_operations,
  replay_material, replay_materials,
}
use materials_manager.Inventory.Rows.{
  operation_source_type, operation_snapshot, log_event, find_by_request, get_operation, line_of,
  material_of,
}

-- The loop over `data.lines` that checks a reversal against its original. What it collects in
-- `reversal_quantities` is the quantity of each line: a request names a material once.
unfoldable pub check_reversal_line : Option StockOperation → OperationLineWrite → Tx Db (Unit {0})
check_reversal_line none line = pure tt
check_reversal_line (some original) line = do
  original_line ←
      or_raise (line_of line.stock_material_id original.lines)
        (app_error ErrorCode.invalid_reversal_line (some 400))
  raise_if (ltb_ℤ original_line.remaining_qty (pos (tenths line.quantity)))
      (app_error ErrorCode.insufficient_quantity (some 409))

-- `StockOperationLine(...)` for a line of the request. `id` is given by the database.
unfoldable pub new_line : ℕ → OperationLineWrite → StockMaterial → StockOperationLine
new_line id line material = record {
  id = id;
  stock_material_id = line.stock_material_id;
  quantity = tenths line.quantity;
  remaining_qty = pos (tenths line.quantity);
  before_qty = pos 0;
  after_qty = pos 0;
  material_name_snapshot = material.name;
  model_spec_snapshot = material.model_spec;
  unit_name_snapshot = material.unit_name;
  version = 1;
}

unfoldable pub new_lines :
    List StockMaterial → ℕ → List OperationLineWrite → Tx Db (List StockOperationLine)
unfolding new_line
new_lines materials id [] = pure []
new_lines materials id (line ∷ lines) = do
  material ← or_key_error (material_of line.stock_material_id materials)
  rest ← new_lines materials (suc id) lines
  pure (new_line id line material ∷ rest)

-- `original_line.remaining_qty - reversal_quantities[...]`
abbrev pub take_remaining : OperationLineWrite → StockOperationLine → StockOperationLine
take_remaining line stored =
    if stored.stock_material_id == line.stock_material_id
    then record stored { remaining_qty = stored.remaining_qty -ℤ pos (tenths line.quantity) }
    else stored

abbrev pub take_all : List OperationLineWrite → StockOperationLine → StockOperationLine
take_all [] stored = stored
take_all (line ∷ lines) stored = take_all lines (take_remaining line stored)

-- The loop that lowers what is left of the original's lines.
abbrev pub lower_original :
    Option StockOperation → List OperationLineWrite → StockOperation → StockOperation
lower_original none lines op = op
lower_original (some original) lines op =
    if op.id == original.id then record op { lines = map (take_all lines) op.lines } else op

abbrev operation_prefix : OperationType → Text
operation_prefix OperationType.inbound = text "IN"
operation_prefix OperationType.outbound = text "OUT"

-- `f"{prefix}{item.occurred_at:%Y%m%d}{item.id:06d}"`
unfoldable pub operation_no : OperationType → Time → ℕ → Text
unfolding date_of format_date zero_padded
operation_no operation_type occurred_at id =
    operation_prefix operation_type ++ (format_date (date_of occurred_at) ++ zero_padded 6 id)

-- A mini program's operation is stored as a manual one.
abbrev pub stored_source : SourceType → SourceType
stored_source source_type = if is_mini_program source_type then SourceType.manual else source_type

abbrev user_name : Option MiniProgramUser → Option Text
user_name none = none
user_name (some user) = some user.display_name

-- The row of the new operation. The number that it has until its id is known is never committed.
abbrev pub new_operation :
    ℕ
    → OperationType
    → OperationCreate
    → Option ℕ
    → Option MiniProgramUser
    → List StockOperationLine
    → StockOperation
new_operation id operation_type request reversal_of_id user lines = record {
  id = id;
  operation_no = operation_no operation_type request.occurred_at id;
  operation_type = operation_type;
  occurred_at = request.occurred_at;
  business_reason = request.business_reason;
  receiver_unit = request.receiver_unit;
  receiver_name = request.receiver_name;
  subitem_no = request.subitem_no;
  source_type = stored_source request.source_type;
  reversal_of_id = reversal_of_id;
  client_request_id = request.client_request_id;
  mini_program_user_name_snapshot = user_name user;
  lines = lines;
  version = 1;
}

-- The insertion of the operation and its lines, and the new remainders of the original.
abbrev pub add_operation :
    StockOperation → Option StockOperation → List OperationLineWrite → Db → Db
add_operation item reversal_of lines db = record db {
  stock_operations = item ∷ map (lower_original reversal_of lines) db.stock_operations;
  next_operation_id = suc db.next_operation_id;
  next_line_id = db.next_line_id + length lines;
}

event_material : StockOperationLine → EventMaterial
event_material line = record {
  name = line.material_name_snapshot;
  model_spec = line.model_spec_snapshot;
  quantity = line.quantity;
  unit_name = line.unit_name_snapshot;
  before_qty = line.before_qty;
  after_qty = line.after_qty;
}

stock_event : StockOperation → StockEvent
unfolding operation_source_type event_material
stock_event item = record {
  occurred_at = item.occurred_at;
  source_type = operation_source_type item;
  business_reason = item.business_reason;
  receiver_unit = item.receiver_unit;
  receiver_name = item.receiver_name;
  subitem_no = item.subitem_no;
  materials = map event_material item.lines;
}

abbrev created_event : OperationType → WebhookEventType
created_event OperationType.inbound = WebhookEventType.stock_inbound_created
created_event OperationType.outbound = WebhookEventType.stock_outbound_created

-- The entry of the event log, and the notification of an operation that is no reversal.
unfoldable pub announce : Env → StockOperation → Option ℕ → Tx Db (Unit {0})
unfolding operation_snapshot stock_event
announce env item none = do
  log_event env item.id (text "CREATED") none (some (operation_snapshot item))
  enqueue_event env (created_event item.operation_type) (EventData.stock (stock_event item))
announce env item (some original_id) =
    log_event env item.id (text "REVERSED") none (some (operation_snapshot item))

module _ (env : Env) (request : OperationCreate) (operation_type : OperationType)
    (reversal_of_id : Option ℕ) (reversal_of : Option StockOperation)
    (user : Option MiniProgramUser) where
  -- From the second look-up on. The source inserts the operation before it checks the reversal's
  -- lines; where a check fails, the insertion is rolled back.
  unfoldable pub write_operation : List StockMaterial → Tx Db StockOperation
  write_operation materials = do
    id ← gets (λ db. db.next_operation_id)
    line_id ← gets (λ db. db.next_line_id)
    for_each request.lines (check_reversal_line reversal_of)
    lines ← new_lines materials line_id request.lines
    modify (
        add_operation (new_operation id operation_type request reversal_of_id user lines)
          reversal_of request.lines)
    replay_materials env (map (λ m. m.id) materials)
    item ← get_operation id
    announce env item reversal_of_id
    pure item

  -- The guards, in their order.
  unfoldable pub check_request : Tx Db (List StockMaterial)
  check_request = do
    raise_if (is_mini_program request.source_type && not (is_some user))
        (plain_error ErrorCode.invalid_source_type)
    raise_if (is_some user && not (is_mini_program request.source_type))
        (plain_error ErrorCode.invalid_source_type)
    raise_if (is_reversal request.source_type && not (is_some reversal_of_id))
        (plain_error ErrorCode.invalid_source_type)
    raise_if (is_outbound operation_type && not (truthy request.business_reason))
        (plain_error ErrorCode.business_reason_required)
    validate_operation_semantics operation_type request.source_type request.receiver_unit
        request.receiver_name
    lock_and_validate_materials request.lines []

  -- A request that was served before is answered with its operation.
  abbrev unless_served : Tx Db StockOperation → Tx Db StockOperation
  unless_served action = do
    existing ← gets (find_by_request request.client_request_id)
    elim existing [ some op ↦ pure op | none ↦ action ]

  unfoldable pub create_operation : Tx Db StockOperation
  create_operation =
      unless_served (do materials ← check_request; unless_served (write_operation materials))

-- A name for the code above, and what it calls, on an `unfolding` line.
unfoldable pub create_code : Unit {0}
unfolding actions validate_quantity_precision tenths validate_operation_semantics sorted_set
    lock_and_validate_materials precedes insert_ordered ledger_order moved replay_line replay_lines
    replay_operations replay_material replay_materials operation_source_type operation_snapshot
    log_event get_operation check_reversal_line new_line new_lines operation_no announce
    enqueue_event write_operation check_request create_operation ◌+ℤ◌ ◌-ℤ◌
create_code = tt
