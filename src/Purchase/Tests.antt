-- ===== src/Purchase/Tests.antt =====
-- Runs of the purchase plans and records, and instances of their theorems.
use materials_manager.Base.{
  keep, not, ◌==◌, Text, All, ◌<◌, ◌≡◌, refl, none, some, List, [], ◌∷◌, text, arith, length,
}
use materials_manager.Core.Common.{validate_version}
use materials_manager.Core.Enums.{PurchasePlanStatus}
use materials_manager.Core.Paging.{order_rows}
use materials_manager.Core.Tx.{Result, ok, err, actions}
use materials_manager.Model.Purchase.{PurchaseMaterial, PurchaseRequestLine}
use materials_manager.Model.Database.{Db, Env, empty_db}
use materials_manager.Schemas.Purchase.{MovePurchasePlanRequest}
use materials_manager.Inventory.Validate.{insert_new, sorted_set}
use materials_manager.Core.Calendar.{date_of_days, format_date, zero_padded}
use materials_manager.Purchase.Numbers.{
  text_ltb, max_text, last_segment, digits_value, to_int, plan_prefix, numbers_of, next_index,
  next_purchase_plan_no,
}
use materials_manager.Purchase.Numbers.Largest.{IsNumber}
use materials_manager.Purchase.Numbers.Fresh.{IsFree, all_numbers, next_purchase_plan_no_fresh}
use materials_manager.Core.Quantity.{validate_quantity_precision, tenths}
use materials_manager.Schemas.Purchase.{PurchaseMaterialCreate}
use materials_manager.Purchase.Plans.{
  delete_purchase_material, new_plan, add_plan, validate_stock_link, check_files, try_create,
  create_purchase_material,
}
use materials_manager.Purchase.Plans.Created.{IsCreated, create_purchase_material-IsCreated}
use materials_manager.Purchase.Records.{
  default_purchase_order_no, new_record_lines, move_plans_to_record,
}
use materials_manager.Purchase.Restore.{
  candidate_ids, cleanup_moved_plans_once, cleanup_moved_plans,
}
use materials_manager.Purchase.Restore.{revive, restore_purchase_record_to_plan}
use materials_manager.Purchase.Restore.Removed.{restore_purchase_record_to_plan-removes}
use materials_manager.Purchase.Records.{new_record_line}
use materials_manager.Purchase.Restore.Left.{has_left}
use materials_manager.Purchase.Restore.Cleanup.{cleanup_moved_plans_complete}
use materials_manager.Purchase.Linked.{IsLinked}
use materials_manager.Purchase.Linked.Steps.{PlanStep, PlanRun, PlanRun-IsLinked}
use materials_manager.Purchase.Sync.{ordered}

abbrev pump : PurchaseMaterial
pump = record {
  id = 5;
  plan_no = text "PLAN-20231114-001";
  plan_date = 19675;
  material_code = some (text "M5");
  category = none;
  urgency = text "urgent";
  demand_department = text "d";
  name = text "pump";
  model_spec = text "P1";
  unit_name = text "pcs";
  actual_demand_person = text "li";
  purchase_responsible = text "wu";
  planned_qty = 20;
  usage = text "u";
  subitem_no = none;
  remark = none;
  stock_material_id = none;
  status = PurchasePlanStatus.normal;
  images = [];
  version = 1;
}

abbrev plans_db : Db
plans_db = record empty_db {
  purchase_materials = pump ∷ record pump { id = 6; plan_no = text "PLAN-20231114-002" } ∷ [];
}

abbrev noon : Env
noon = record { now = 1700000000000000; event_id = text "e1" }

abbrev move : MovePurchasePlanRequest
move = record {
  purchase_order_no = none;
  trace_no = some (text "T1");
  contract_no = none;
  vessel_no = some (text "V9");
  consolidation_date = none;
  consolidation_port = none;
  sailing_date = none;
  purchase_date = 19676;
  salesperson = none;
  status = ordered;
  record_remark = none;
}

abbrev result_of : Result (List PurchaseRequestLine × Db) → List PurchaseRequestLine × Db
result_of (ok r) = r
result_of (err e) = ([], empty_db)

abbrev moved : Result (List PurchaseRequestLine × Db)
moved = move_plans_to_record noon (5 ∷ 5 ∷ []) move plans_db

abbrev moved_db : Db
moved_db = (result_of moved).1

moved_ok : moved ≡ ok ((result_of moved).0, moved_db)
unfolding actions insert_new sorted_set order_rows new_record_lines default_purchase_order_no
    move_plans_to_record
moved_ok = refl

abbrev cleaned_db : Db
cleaned_db = (cleanup_moved_plans_once moved_db).1

abbrev shrunk_db : Db
shrunk_db = record cleaned_db { purchase_materials = [] }

-- What the clean-up has left of the plans is deleted.
deletes :
    delete_purchase_material
      (record pump { id = 6; plan_no = text "PLAN-20231114-002" })
      (some 1)
      cleaned_db
    ≡ ok (tt, shrunk_db)
unfolding actions validate_version delete_purchase_material insert_new sorted_set order_rows
    new_record_lines default_purchase_order_no move_plans_to_record cleanup_moved_plans_once
    candidate_ids
deletes = refl

abbrev plan_run : PlanRun plans_db shrunk_db
plan_run =
    PlanRun.next plans_db moved_db shrunk_db
      (PlanStep.moved noon (5 ∷ 5 ∷ []) move plans_db (result_of moved).0 moved_db moved_ok)
      (PlanRun.next moved_db cleaned_db shrunk_db (PlanStep.cleaned moved_db) (
        PlanRun.next cleaned_db shrunk_db shrunk_db
          (PlanStep.deleted (record pump { id = 6; plan_no = text "PLAN-20231114-002" }) (some 1)
            cleaned_db shrunk_db deletes)
          (PlanRun.stop shrunk_db)))

PlanRun-IsLinked_example : IsLinked shrunk_db
PlanRun-IsLinked_example = PlanRun-IsLinked plans_db shrunk_db tt plan_run

moved_few : length moved_db.purchase_materials < 3
unfolding actions insert_new sorted_set order_rows new_record_lines default_purchase_order_no
    move_plans_to_record
moved_few = omega arith

cleanup_moved_plans_complete_example :
    (cleanup_moved_plans 3 moved_db).purchase_materials
    ≡ keep (λ m. not (has_left moved_db.purchase_request_lines m.id)) moved_db.purchase_materials
cleanup_moved_plans_complete_example = cleanup_moved_plans_complete 3 moved_db moved_few

abbrev third : Text
third = text "PLAN-20231114-003"

third_next : next_purchase_plan_no 19675 plans_db ≡ ok (third, plans_db)
unfolding actions text_ltb max_text last_segment digits_value to_int next_index
    next_purchase_plan_no date_of_days format_date zero_padded
third_next = refl

known_numbers : All (IsNumber 19675) (numbers_of (plan_prefix 19675) plans_db)
unfolding date_of_days format_date zero_padded
known_numbers = (
  record { index = 1; small = omega arith; written = refl },
  (record { index = 2; small = omega arith; written = refl }, tt),
)

next_purchase_plan_no_fresh_example :
    IsNumber 19675 third × IsFree third (all_numbers plans_db) × (plans_db ≡ plans_db)
next_purchase_plan_no_fresh_example =
    next_purchase_plan_no_fresh 19675 plans_db third plans_db known_numbers third_next

abbrev valve : PurchaseMaterialCreate
valve = record {
  plan_date = some 19675;
  material_code = none;
  category = none;
  urgency = text "normal";
  demand_department = text "d";
  name = text "valve";
  model_spec = text "V1";
  unit_name = text "pcs";
  actual_demand_person = none;
  purchase_responsible = some (text "wu");
  planned_qty = record { coefficient = 3; places = 0 };
  usage = text "u";
  subitem_no = none;
  remark = none;
  stock_material_id = none;
  image_ids = [];
  status = PurchasePlanStatus.normal;
}

abbrev valve_plan : PurchaseMaterial
valve_plan = new_plan 1 third 19675 valve

created_ok :
    create_purchase_material noon valve plans_db ≡ ok (valve_plan, add_plan valve_plan plans_db)
unfolding actions validate_quantity_precision tenths validate_stock_link check_files text_ltb
    max_text last_segment digits_value to_int next_index next_purchase_plan_no date_of_days
    format_date zero_padded try_create create_purchase_material
created_ok = refl

create_purchase_material-IsCreated_example :
    IsCreated 19675 valve plans_db valve_plan (add_plan valve_plan plans_db)
create_purchase_material-IsCreated_example =
    create_purchase_material-IsCreated noon valve plans_db valve_plan (add_plan valve_plan plans_db)
      known_numbers created_ok

-- The moved pump becomes a plan again.
abbrev moved_line : PurchaseRequestLine
moved_line = new_record_line 1 1 move pump

moved_line_row : All (λ l. l.id ≡ moved_line.id → l ≡ moved_line) moved_db.purchase_request_lines
unfolding actions insert_new sorted_set order_rows new_record_lines default_purchase_order_no
    move_plans_to_record
moved_line_row = ((λ _. refl), tt)

abbrev restored_of : Result (PurchaseMaterial × Db) → PurchaseMaterial × Db
restored_of (ok r) = r
restored_of (err e) = (pump, empty_db)

abbrev restored : Result (PurchaseMaterial × Db)
restored = restore_purchase_record_to_plan moved_line (some 1) moved_db

restored_ok : restored ≡ ok ((restored_of restored).0, (restored_of restored).1)
unfolding actions validate_version insert_new sorted_set order_rows new_record_lines
    default_purchase_order_no move_plans_to_record revive restore_purchase_record_to_plan
restored_ok = refl

restore_purchase_record_to_plan-removes_example :
    (restored_of restored).1.purchase_request_lines
    ≡ keep (λ l. not (l.id == moved_line.id)) moved_db.purchase_request_lines
restore_purchase_record_to_plan-removes_example =
    restore_purchase_record_to_plan-removes moved_line (some 1) moved_db (restored_of restored).0
      (restored_of restored).1 moved_line_row restored_ok
