-- ===== src/MiniProgram/Warehouse/Tests.antt =====
-- Instances of the theorems on the mini program's view of the warehouse.
use materials_manager.Base.{
  ◌*◌, ◌≡◌, ◌≤◌, refl, pos, text, text_eq, none, some, true, false, [], ◌∷◌, find, All, length,
  arith,
}
use materials_manager.Core.Enums.{MiniProgramStockStatus}
use materials_manager.Core.Paging.{split_or_search_terms, contains_any, order_rows}
use materials_manager.Core.Quantity.{tenths}
use materials_manager.Core.Tx.{Result, ok, err}
use materials_manager.Model.Stock.{StockMaterial, MiniProgramUser}
use materials_manager.Model.Database.{Db, Env, empty_db}
use materials_manager.Inventory.Ledger.{IsConsistent}
use materials_manager.Inventory.Replay.{ledger_order}
use materials_manager.Inventory.Create.{create_code}
use materials_manager.MiniProgram.{is_lite_secondary_warehouse}
use materials_manager.MiniProgram.Warehouse.{
  get_material, status_condition, inventory_query, list_inventory,
}
use materials_manager.MiniProgram.Warehouse.Status.{of_status, listed, list_inventory-status}
use materials_manager.MiniProgram.Warehouse.Outbound.{
  MiniProgramOutboundCreate, MiniProgramOutboundRead, read_outbound,
  ensure_not_lite_secondary_warehouse, create_outbound, list_operations_by_user,
}
use materials_manager.MiniProgram.Warehouse.Outbound.Balance.{
  has_uuid, IsLowered, create_outbound-balance,
}
use materials_manager.MiniProgram.Warehouse.Outbound.Reads.{IsOwn, list_operations_by_user-IsOwn}

abbrev nut : StockMaterial
nut = record {
  id = 4;
  uuid = text "u4";
  name = text "nut";
  name_id = none;
  alias = none;
  model_spec = text "M6";
  unit_name = text "pcs";
  remark = none;
  identity_hash = text "h4";
  replenishment_policy = some (record { minimum_qty = pos 50; enabled = true; version = 1 });
  images = [];
  version = 1;
}

abbrev store : Db
store = record empty_db {
  stock_materials = nut ∷ [];
  stock_balances =
      record { stock_material_id = 4; quantity = pos 0; version = 1; updated_at = 0 } ∷ [];
}

abbrev worker : MiniProgramUser
worker = record {
  id = 1;
  display_name = text "Li";
  department_name = text "d";
  enabled = true;
  identities = [];
  version = 1;
}

store-IsConsistent : IsConsistent store
unfolding ledger_order
store-IsConsistent m = record { chain = tt; total = λ b found. ground arith }

abbrev noon : Env
noon = record { now = 1700000000000000; event_id = text "e1" }

-- Two nuts are taken, though none is booked in: the balance may fall below zero.
abbrev taken : MiniProgramOutboundCreate
taken = record {
  client_request_id = text "r1";
  material_uuid = text "u4";
  occurred_at = 1700000000000000;
  quantity = record { coefficient = 2; places = 0 };
  business_reason = text "repair";
  receiver_unit = [];
  subitem_no = text "s1";
}

abbrev outcome : Result (MiniProgramOutboundRead × Db)
outcome = create_outbound noon taken worker store

abbrev blank_read : MiniProgramOutboundRead
blank_read = record {
  operation_id = 0;
  operation_no = [];
  material_uuid = [];
  material_name = [];
  model_spec = [];
  unit_name = [];
  quantity = 0;
  before_qty = pos 0;
  after_qty = pos 0;
  occurred_at = 0;
  business_reason = [];
  receiver_unit = none;
  receiver_name = [];
  subitem_no = none;
  executed_by = [];
}

abbrev read_of : Result (MiniProgramOutboundRead × Db) → MiniProgramOutboundRead × Db
read_of (ok q) = q
read_of (err e) = (blank_read, store)

takes : outcome ≡ ok (read_of outcome)
unfolding create_code create_outbound get_material read_outbound ensure_not_lite_secondary_warehouse
    is_lite_secondary_warehouse
takes = refl

create_outbound-balance_example :
    (material : StockMaterial) × (find (has_uuid (text "u4")) store.stock_materials ≡ some material)
    × ((read_of outcome).0.material_uuid ≡ text "u4")
    × (is_lite_secondary_warehouse store ≡ false)
    × IsConsistent (read_of outcome).1
    × IsLowered (tenths taken.quantity) material.id store (read_of outcome).1
create_outbound-balance_example =
    create_outbound-balance noon taken worker store (read_of outcome) store-IsConsistent refl takes

list_operations_by_user-IsOwn_example :
    All
      (IsOwn text_eq (text "Li"))
      (list_operations_by_user text_eq worker 1 20 (read_of outcome).1).0
list_operations_by_user-IsOwn_example =
    list_operations_by_user-IsOwn text_eq worker 1 20 (read_of outcome).1 refl

-- Fifteen tenths of the nut are left, so that it is low.
abbrev low_store : Db
low_store = record store {
  stock_balances =
      record { stock_material_id = 4; quantity = pos 15; version = 1; updated_at = 0 } ∷ [];
}

one_page :
    (list_inventory text_eq none (some MiniProgramStockStatus.low_stock) 1 5 low_store).1 ≤ 1 * 5
unfolding list_inventory inventory_query contains_any split_or_search_terms status_condition
    order_rows
one_page = omega arith

list_inventory-status_example :
    (listed text_eq none low_store (some MiniProgramStockStatus.low_stock) 1 1 5
      ≡ of_status text_eq none low_store MiniProgramStockStatus.low_stock)
    × ((list_inventory text_eq none (some MiniProgramStockStatus.low_stock) 1 5 low_store).1
        ≡ length (of_status text_eq none low_store MiniProgramStockStatus.low_stock))
list_inventory-status_example =
    list_inventory-status text_eq none low_store MiniProgramStockStatus.low_stock 1 5
      (λ e. absurd (cc)) one_page
