-- ===== src/Purchase/Records.antt =====
-- backend/app/services/purchase_request_service.py: plans become records, records are edited, and a
-- record becomes a plan again.
use materials_manager.Base.{
  ℕ, suc, ◌+◌, Text, text, Option, none, some, Bool, false, List, [], ◌∷◌, ◌++◌, not, ◌==◌, ltb,
  any, find, map, contains, length, truthy?, or_none, if◌then◌else◌,
}
use materials_manager.Core.Errors.{ErrorCode, app_error, not_found}
use materials_manager.Core.Calendar.{date_of_days, zero_padded}
use materials_manager.Core.Paging.{order_rows}
use materials_manager.Core.Common.{validate_version}
use materials_manager.Core.Tx.{Tx, ◌>>=◌, ◌>>◌, pure, gets, modify, raise_if, or_key_error}
use materials_manager.Model.Purchase.{PurchaseMaterial, PurchaseRequest, PurchaseRequestLine}
use materials_manager.Model.Database.{Db, Env}
use materials_manager.Schemas.Purchase.{
  MovePurchasePlanRequest, BatchMovePurchasePlansRequest, PurchaseRecordUpdate,
}
use materials_manager.Inventory.Validate.{sorted_set}
use materials_manager.Purchase.Plans.{shanghai_today, check_files, named_plans}

-- `f"申购 {now.year}/{now.month}/{now.day}"`
unfoldable pub default_purchase_order_no : Env → Text
default_purchase_order_no env =
    let d = date_of_days (shanghai_today env) in
    text "申购 "
    ++ (zero_padded 1 d.year
        ++ (text "/" ++ (zero_padded 1 d.month ++ (text "/" ++ zero_padded 1 d.day))))

-- `PurchaseRequestLine(...)`: the fields of the plan, copied.
abbrev pub new_record_line :
    ℕ → ℕ → MovePurchasePlanRequest → PurchaseMaterial → PurchaseRequestLine
new_record_line id request_id move material = record {
  id = id;
  purchase_request_id = request_id;
  purchase_material_id = some material.id;
  plan_no_snapshot = material.plan_no;
  plan_date_snapshot = material.plan_date;
  material_code_snapshot = material.material_code;
  category_snapshot = material.category;
  demand_department_snapshot = material.demand_department;
  material_name_snapshot = material.name;
  model_spec_snapshot = material.model_spec;
  unit_name_snapshot = material.unit_name;
  actual_demand_person_snapshot = material.actual_demand_person;
  purchase_responsible_snapshot = material.purchase_responsible;
  plan_remark_snapshot = material.remark;
  stock_material_id_snapshot = material.stock_material_id;
  purchase_qty = material.planned_qty;
  status = move.status;
  usage = material.usage;
  subitem_no = material.subitem_no;
  trace_no = or_none move.trace_no;
  salesperson = move.salesperson;
  images = material.images;
  version = 1;
}

unfoldable pub new_record_lines :
    ℕ → ℕ → MovePurchasePlanRequest → List PurchaseMaterial → List PurchaseRequestLine
new_record_lines id request_id move [] = []
new_record_lines id request_id move (material ∷ rest) =
    new_record_line id request_id move material ∷ new_record_lines (suc id) request_id move rest

-- An order number that the request leaves out is made from the date.
abbrev order_no : Env → MovePurchasePlanRequest → Option Text
order_no env move = elim move.purchase_order_no [
  | some s ↦ or_none s
  | none ↦ some (default_purchase_order_no env)
]

abbrev pub new_request : Env → ℕ → MovePurchasePlanRequest → PurchaseRequest
new_request env id move = record {
  id = id;
  purchase_order_no = order_no env move;
  contract_no = or_none move.contract_no;
  vessel_no = or_none move.vessel_no;
  consolidation_date = move.consolidation_date;
  consolidation_port = or_none move.consolidation_port;
  sailing_date = move.sailing_date;
  remark = move.record_remark;
  purchase_date = some move.purchase_date;
  version = 1;
}

abbrev pub add_request : PurchaseRequest → List PurchaseRequestLine → Db → Db
add_request request lines db = record db {
  purchase_requests = request ∷ db.purchase_requests;
  purchase_request_lines = lines ++ db.purchase_request_lines;
  next_purchase_request_id = suc db.next_purchase_request_id;
  next_purchase_line_id = db.next_purchase_line_id + length lines;
}

abbrev pub is_uncoded : PurchaseMaterial → Bool
is_uncoded material = not (truthy? material.material_code)

abbrev pub was_moved : List ℕ → PurchaseRequestLine → Bool
was_moved ids line = elim line.purchase_material_id [ some m ↦ contains m ids | none ↦ false ]

-- `order_by(PurchaseMaterial.id)`
abbrev pub by_id : PurchaseMaterial → PurchaseMaterial → Bool
by_id a b = ltb a.id b.id

unfoldable pub move_plans_to_record :
    Env → List ℕ → MovePurchasePlanRequest → Tx Db (List PurchaseRequestLine)
move_plans_to_record env material_ids move = do
  let ids = sorted_set material_ids
  materials ← gets (λ db. order_rows by_id (named_plans ids db))
  raise_if (not (length materials == length ids)) not_found
  raise_if (any is_uncoded materials) (app_error ErrorCode.material_code_required (some 409))
  moved ← gets (λ db. any (was_moved ids) db.purchase_request_lines)
  raise_if moved (app_error ErrorCode.plan_already_moved (some 409))
  request_id ← gets (λ db. db.next_purchase_request_id)
  line_id ← gets (λ db. db.next_purchase_line_id)
  modify (
      add_request (new_request env request_id move)
        (new_record_lines line_id request_id move materials))
  pure (new_record_lines line_id request_id move materials)

unfoldable pub batch_move_plans_to_record :
    Env → BatchMovePurchasePlansRequest → Tx Db (List PurchaseRequestLine)
batch_move_plans_to_record env request = move_plans_to_record env request.material_ids request.move

-- `line.request`
unfoldable pub request_of : PurchaseRequestLine → Tx Db PurchaseRequest
request_of line = do
  found ← gets (λ db. find (λ r. r.id == line.purchase_request_id) db.purchase_requests)
  or_key_error found

abbrev pub replace_request : PurchaseRequest → PurchaseRequest → PurchaseRequest
replace_request item r = if r.id == item.id then item else r

abbrev pub put_request : PurchaseRequest → Db → Db
put_request item db = record db {
  purchase_requests = map (replace_request item) db.purchase_requests;
}

abbrev pub replace_record : PurchaseRequestLine → PurchaseRequestLine → PurchaseRequestLine
replace_record item l = if l.id == item.id then item else l

abbrev pub put_record : PurchaseRequestLine → Db → Db
put_record item db = record db {
  purchase_request_lines = map (replace_record item) db.purchase_request_lines;
}

abbrev pub edited_request : PurchaseRecordUpdate → PurchaseRequest → PurchaseRequest
edited_request update request = record request {
  purchase_order_no = or_none update.purchase_order_no;
  contract_no = or_none update.contract_no;
  vessel_no = or_none update.vessel_no;
  consolidation_date = update.consolidation_date;
  consolidation_port = or_none update.consolidation_port;
  sailing_date = update.sailing_date;
  purchase_date = update.purchase_date;
  remark = update.record_remark;
  version = request.version + 1;
}

abbrev pub edited_record : PurchaseRecordUpdate → PurchaseRequestLine → PurchaseRequestLine
edited_record update line = record line {
  trace_no = or_none update.trace_no;
  salesperson = update.salesperson;
  plan_date_snapshot = update.plan_date;
  material_code_snapshot = update.material_code;
  category_snapshot = update.category;
  demand_department_snapshot = update.demand_department;
  material_name_snapshot = update.material_name;
  model_spec_snapshot = update.model_spec;
  unit_name_snapshot = update.unit_name;
  actual_demand_person_snapshot = update.actual_demand_person;
  purchase_responsible_snapshot = update.purchase_responsible;
  plan_remark_snapshot = update.plan_remark;
  stock_material_id_snapshot = update.stock_material_id;
  purchase_qty = update.purchase_qty;
  status = update.status;
  usage = update.usage;
  subitem_no = update.subitem_no;
  images = update.image_ids;
  version = line.version + 1;
}

unfoldable pub update_purchase_record :
    PurchaseRequestLine → PurchaseRecordUpdate → Tx Db PurchaseRequestLine
update_purchase_record line update = do
  request ← request_of line
  validate_version (some update.version) request.version
  check_files update.image_ids
  modify (put_request (edited_request update request))
  modify (put_record (edited_record update line))
  pure (edited_record update line)
