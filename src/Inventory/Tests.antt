-- ===== src/Inventory/Tests.antt =====
-- Runs of the stock ledger on a small warehouse, and instances of its theorems.
use materials_manager.Base.{pos, ◌≡◌, refl, none, some, [], ◌∷◌, text, arith, ◌↔◌, ◌*◌, ◌^◌}
use materials_manager.Core.Enums.{OperationType, SourceType}
use materials_manager.Core.Quantity.{
  tenths, validate_quantity_precision, validate_quantity_precision-exact,
}
use materials_manager.Core.Tx.{Result, ok, err}
use materials_manager.Model.Stock.{StockMaterial, StockBalance, StockOperation}
use materials_manager.Model.Database.{Db, Env, empty_db}
use materials_manager.Schemas.Operations.{OperationCreate}
use materials_manager.Inventory.Replay.{ledger_order, balance_of}
use materials_manager.Inventory.Rows.{find_by_request}
use materials_manager.Inventory.Create.{create_operation, new_operation, create_code}
use materials_manager.Inventory.Create.Balance.{requested, balance_after, create_operation-balance}
use materials_manager.Inventory.Create.Consistent.{create_operation-IsConsistent}
use materials_manager.Inventory.Create.Idempotent.{create_operation_idempotent}
use materials_manager.Inventory.Update.{
  write_update, check_update, updated_lines, edit_line, update_operation, reverse_operation,
}
use materials_manager.Inventory.Update.Reverse.{reverse_operation_undoes}
use materials_manager.Inventory.Update.Consistent.{IsRow, update_operation-IsConsistent}
use materials_manager.Schemas.Operations.{OperationUpdate, ReverseOperationRequest}
use materials_manager.Core.Common.{validate_version}
use materials_manager.Inventory.Ledger.{IsConsistent}

abbrev bolt : StockMaterial
bolt = record {
  id = 7;
  uuid = text "u7";
  name = text "bolt";
  name_id = none;
  alias = none;
  model_spec = text "M8";
  unit_name = text "pcs";
  remark = none;
  identity_hash = text "h7";
  replenishment_policy = none;
  images = [];
  version = 1;
}

-- One material, nothing in stock.
abbrev warehouse : Db
warehouse = record empty_db {
  stock_materials = bolt ∷ [];
  stock_balances =
      record { stock_material_id = 7; quantity = pos 0; version = 1; updated_at = 0 } ∷ [];
}

abbrev noon : Env
noon = record { now = 1700000000000000; event_id = text "e1" }

-- 12.50 bolts come in.
abbrev delivery : OperationCreate
delivery = record {
  client_request_id = text "r1";
  occurred_at = 1700000000000000;
  source_type = SourceType.manual;
  business_reason = text "order";
  receiver_unit = none;
  receiver_name = none;
  subitem_no = none;
  lines =
      record { stock_material_id = 7; quantity = record { coefficient = 1250; places = 2 } } ∷ [];
}

warehouse-IsConsistent : IsConsistent warehouse
unfolding ledger_order
warehouse-IsConsistent m = record { chain = tt; total = λ b found. ground arith }

abbrev blank_operation : StockOperation
blank_operation = new_operation 0 OperationType.inbound delivery none none []

abbrev result_item : Result (StockOperation × Db) → StockOperation
result_item (ok r) = r.0
result_item (err e) = blank_operation

abbrev result_db : Result (StockOperation × Db) → Db
result_db (ok r) = r.1
result_db (err e) = empty_db

abbrev delivered : Result (StockOperation × Db)
delivered = create_operation noon delivery OperationType.inbound none none none warehouse

abbrev delivered_db : Db
delivered_db = result_db delivered

delivered_no : (result_item delivered).operation_no ≡ text "IN20231114000001"
unfolding create_code
delivered_no = refl

delivered_ok : delivered ≡ ok (result_item delivered, delivered_db)
unfolding create_code
delivered_ok = refl

create_operation-IsConsistent_example : IsConsistent delivered_db
create_operation-IsConsistent_example =
    create_operation-IsConsistent noon delivery OperationType.inbound none none none warehouse
      (result_item delivered) delivered_db warehouse-IsConsistent delivered_ok

create_operation-balance_example :
    (b : StockBalance) × (balance_of 7 delivered_db ≡ some b)
    × (b.quantity ≡ balance_after OperationType.inbound (pos 0) (requested 7 delivery.lines))
create_operation-balance_example =
    create_operation-balance noon delivery OperationType.inbound none none none warehouse
      (result_item delivered) delivered_db 7
      (record { stock_material_id = 7; quantity = pos 0; version = 1; updated_at = 0 })
      warehouse-IsConsistent refl refl delivered_ok

-- 12.50 is a whole number of tenths.
validate_quantity_precision-exact_example :
    (validate_quantity_precision (record { coefficient = 1250; places = 2 }) warehouse
      ≡ ok (tt, warehouse))
    ↔ (tenths (record { coefficient = 1250; places = 2 }) * 10 ^ 2 ≡ 1250 * 10)
validate_quantity_precision-exact_example =
    validate_quantity_precision-exact (record { coefficient = 1250; places = 2 }) warehouse

-- The same request again, as an outbound operation.
create_operation_idempotent_example :
    (op : StockOperation) × (create_operation noon delivery OperationType.outbound none none none
        delivered_db
      ≡ ok (op, delivered_db))
    × (op.id ≡ (result_item delivered).id)
create_operation_idempotent_example =
    create_operation_idempotent noon noon delivery delivery OperationType.inbound
      OperationType.outbound none none none none none none warehouse (result_item delivered)
      delivered_db refl delivered_ok refl

-- The delivery becomes one of 10 bolts.
abbrev correction : OperationUpdate
correction = record {
  version = 1;
  operation_type = OperationType.inbound;
  occurred_at = 1700000000000000;
  source_type = SourceType.manual;
  business_reason = text "recount";
  receiver_unit = none;
  receiver_name = none;
  subitem_no = none;
  lines = record { stock_material_id = 7; quantity = record { coefficient = 10; places = 0 } } ∷ [];
}

abbrev corrected : Result (StockOperation × Db)
corrected = update_operation noon (result_item delivered) correction delivered_db

corrected_ok : corrected ≡ ok (result_item corrected, result_db corrected)
unfolding create_code validate_version edit_line updated_lines write_update check_update
    update_operation
corrected_ok = refl

delivered-IsRow : IsRow (result_item delivered) delivered_db
unfolding create_code
delivered-IsRow = ((λ _. refl), tt)

update_operation-IsConsistent_example : IsConsistent (result_db corrected)
update_operation-IsConsistent_example =
    update_operation-IsConsistent noon (result_item delivered) correction delivered_db
      (result_item corrected) (result_db corrected) create_operation-IsConsistent_example
      delivered-IsRow corrected_ok

-- The whole delivery goes back.
abbrev return_all : ReverseOperationRequest
return_all = record {
  client_request_id = text "r2";
  reason = text "wrong size";
  lines = delivery.lines;
}

abbrev returned : Result (StockOperation × Db)
returned = reverse_operation noon (result_item delivered) return_all delivered_db

returned_ok : returned ≡ ok (result_item returned, result_db returned)
unfolding create_code reverse_operation
returned_ok = refl

delivered_type : (result_item delivered).operation_type ≡ OperationType.inbound
unfolding create_code
delivered_type = refl

return_new : find_by_request return_all.client_request_id delivered_db ≡ none
unfolding create_code
return_new = refl

reverse_operation_undoes_example :
    (after : StockBalance) × (balance_of 7 (result_db returned) ≡ some after)
    × (after.quantity ≡ pos 0)
reverse_operation_undoes_example =
    reverse_operation_undoes noon noon delivery OperationType.inbound none warehouse
      (result_item delivered) delivered_db (result_item delivered) return_all (result_item returned)
      (result_db returned) 7
      (record { stock_material_id = 7; quantity = pos 0; version = 1; updated_at = 0 })
      warehouse-IsConsistent refl refl delivered_ok delivered_type refl return_new returned_ok
