-- ===== src/Purchase/Plans.antt =====
-- The purchase plans of backend/app/services/material_service.py.
pub mod Created
use materials_manager.Base.{
  ℕ, suc, zero, ◌+◌, ◌/◌, Text, text, text_eq, Option, none, some, Bool, true, false, List, ◌∷◌,
  not, ◌==◌, any, all, keep, find, map, contains, length, truthy?, if◌then◌else◌,
}
use materials_manager.Core.Errors.{ErrorCode, app_error, not_found}
use materials_manager.Core.Calendar.{microseconds_per_day}
use materials_manager.Core.Common.{validate_version}
use materials_manager.Core.Quantity.{tenths, validate_quantity_precision}
use materials_manager.Core.Tx.{
  Tx, ◌>>=◌, ◌>>◌, pure, raise, gets, modify, raise_if, or_raise, for_each,
}
use materials_manager.Model.Purchase.{Date, PurchaseMaterial, PurchaseRequestLine}
use materials_manager.Model.Database.{Db, Env}
use materials_manager.Schemas.Purchase.{
  PurchaseMaterialCreate, PurchaseMaterialUpdate, PurchasePlanVersion,
  BatchUpdatePurchasePlansRequest,
}
use materials_manager.Purchase.Numbers.{next_purchase_plan_no}

-- `datetime.now(SHANGHAI).date()`
abbrev pub shanghai_today : Env → Date
shanghai_today env = (env.now + 28800000000) / microseconds_per_day

-- `value or other`
abbrev pub or_else : Option Text → Text → Text
or_else value other = if truthy? value then (elim value [ some s ↦ s | none ↦ other ]) else other

abbrev pub has : Text → List Text → Bool
has s ts = any (text_eq s) ts

-- `_files`: every image is a stored file.
unfoldable pub check_files : List Text → Tx Db (Unit {0})
check_files image_ids = do
  stored ← gets (λ db. db.file_objects)
  raise_if (not (all (λ i. has i stored) image_ids)) (app_error ErrorCode.invalid_image_id none)

unfoldable pub validate_stock_link : Option ℕ → Tx Db (Unit {0})
validate_stock_link none = pure tt
validate_stock_link (some id) = do
  found ← gets (λ db. any (λ m. m.id == id) db.stock_materials)
  raise_if (not found) not_found

abbrev pub responsible_of : PurchaseMaterialCreate → Text → Text
responsible_of request fallback = or_else request.purchase_responsible fallback

abbrev pub new_plan : ℕ → Text → Date → PurchaseMaterialCreate → PurchaseMaterial
new_plan id plan_no plan_date request = record {
  id = id;
  plan_no = plan_no;
  plan_date = plan_date;
  material_code = request.material_code;
  category = request.category;
  urgency = request.urgency;
  demand_department = request.demand_department;
  name = request.name;
  model_spec = request.model_spec;
  unit_name = request.unit_name;
  actual_demand_person = or_else request.actual_demand_person (responsible_of request (text "\\"));
  purchase_responsible = responsible_of request (text "\\");
  planned_qty = tenths request.planned_qty;
  usage = request.usage;
  subitem_no = request.subitem_no;
  remark = request.remark;
  stock_material_id = request.stock_material_id;
  status = request.status;
  images = request.image_ids;
  version = 1;
}

abbrev pub add_plan : PurchaseMaterial → Db → Db
add_plan item db = record db {
  purchase_materials = item ∷ db.purchase_materials;
  next_purchase_material_id = suc db.next_purchase_material_id;
}

-- The unique key over `plan_no`.
abbrev pub is_taken : Text → Db → Bool
is_taken plan_no db = any (λ m. text_eq m.plan_no plan_no) db.purchase_materials

-- The loop of `create_purchase_material`: an insertion that breaks the unique key is rolled back to
-- the savepoint and tried again.
unfoldable pub try_create : ℕ → Date → PurchaseMaterialCreate → Tx Db PurchaseMaterial
try_create zero plan_date request = raise (app_error ErrorCode.plan_no_conflict (some 409))
try_create (suc n) plan_date request = do
  plan_no ← next_purchase_plan_no plan_date
  id ← gets (λ db. db.next_purchase_material_id)
  taken ← gets (is_taken plan_no)
  elim taken [
    | true ↦ try_create n plan_date request
    | false ↦ do
      modify (add_plan (new_plan id plan_no plan_date request))
      pure (new_plan id plan_no plan_date request)
  ]

abbrev pub plan_date_of : Env → PurchaseMaterialCreate → Date
plan_date_of env request = elim request.plan_date [ some d ↦ d | none ↦ shanghai_today env ]

unfoldable pub create_purchase_material : Env → PurchaseMaterialCreate → Tx Db PurchaseMaterial
create_purchase_material env request = do
  validate_quantity_precision request.planned_qty
  validate_stock_link request.stock_material_id
  check_files request.image_ids
  try_create 3 (plan_date_of env request) request

-- Writes the row of a plan.
abbrev pub replace_plan : PurchaseMaterial → PurchaseMaterial → PurchaseMaterial
replace_plan item m = if m.id == item.id then item else m

abbrev pub put_plan : PurchaseMaterial → Db → Db
put_plan item db = record db { purchase_materials = map (replace_plan item) db.purchase_materials }

-- A new date takes a new number; the same date keeps the old one.
unfoldable pub redate : Option Date → PurchaseMaterial → Tx Db PurchaseMaterial
redate none item = pure item
redate (some plan_date) item = if plan_date == item.plan_date then pure item else (do
  plan_no ← next_purchase_plan_no plan_date
  pure (record item { plan_no = plan_no; plan_date = plan_date }))

abbrev edited_plan : PurchaseMaterialUpdate → PurchaseMaterial → PurchaseMaterial
edited_plan request item = record item {
  material_code = request.base.material_code;
  category = request.base.category;
  urgency = request.base.urgency;
  demand_department = request.base.demand_department;
  name = request.base.name;
  model_spec = request.base.model_spec;
  unit_name = request.base.unit_name;
  planned_qty = tenths request.base.planned_qty;
  usage = request.base.usage;
  subitem_no = request.base.subitem_no;
  remark = request.base.remark;
  stock_material_id = request.base.stock_material_id;
  actual_demand_person = (elim request.base.actual_demand_person [
    | some s ↦ s
    | none ↦ item.actual_demand_person
  ]);
  status = (if request.status_set then request.base.status else item.status);
  purchase_responsible = responsible_of request.base item.purchase_responsible;
  images = request.base.image_ids;
  version = item.version + 1;
}

unfoldable pub update_purchase_material :
    PurchaseMaterial → PurchaseMaterialUpdate → Tx Db PurchaseMaterial
update_purchase_material item request = do
  validate_version (some request.version) item.version
  validate_quantity_precision request.base.planned_qty
  validate_stock_link request.base.stock_material_id
  check_files request.base.image_ids
  dated ← redate request.base.plan_date item
  modify (put_plan (edited_plan request dated))
  pure (edited_plan request dated)

-- `if field in update_fields: item.field = data.field`
abbrev pub given : {A : Type 0} → Option A → A → A
given none old = old
given (some new) old = new

abbrev batch_edited : BatchUpdatePurchasePlansRequest → PurchaseMaterial → PurchaseMaterial
batch_edited request item = record item {
  category = given request.category item.category;
  urgency = given request.urgency item.urgency;
  demand_department = given request.demand_department item.demand_department;
  actual_demand_person = given request.actual_demand_person item.actual_demand_person;
  purchase_responsible = given request.purchase_responsible item.purchase_responsible;
  subitem_no = given request.subitem_no item.subitem_no;
  usage = given request.usage item.usage;
  status = given request.status item.status;
  version = item.version + 1;
}

abbrev pub plan_of : ℕ → Db → Option PurchaseMaterial
plan_of id db = find (λ m. m.id == id) db.purchase_materials

unfoldable pub update_one : BatchUpdatePurchasePlansRequest → PurchasePlanVersion → Tx Db (Unit {0})
update_one request reference = do
  found ← gets (plan_of reference.id)
  item ← or_raise found not_found
  validate_version (some reference.version) item.version
  dated ← redate request.plan_date item
  modify (put_plan (batch_edited request dated))

-- The rows that the request names, all of them at once.
abbrev pub named_plans : List ℕ → Db → List PurchaseMaterial
named_plans ids db = keep (λ m. contains m.id ids) db.purchase_materials

unfoldable pub batch_update_purchase_materials : BatchUpdatePurchasePlansRequest → Tx Db (Unit {0})
batch_update_purchase_materials request = do
  items ← gets (named_plans (map (λ r. r.id) request.materials))
  raise_if (not (length items == length request.materials)) not_found
  for_each request.materials (update_one request)

-- Whether a record has come from the plan.
abbrev pub is_of_plan : ℕ → PurchaseRequestLine → Bool
is_of_plan id line = elim line.purchase_material_id [ some m ↦ m == id | none ↦ false ]

abbrev pub remove_plan : ℕ → Db → Db
remove_plan id db = record db {
  purchase_materials = keep (λ m. not (m.id == id)) db.purchase_materials;
}

unfoldable pub delete_purchase_material : PurchaseMaterial → Option ℕ → Tx Db (Unit {0})
delete_purchase_material item version = do
  validate_version version item.version
  referenced ← gets (λ db. any (is_of_plan item.id) db.purchase_request_lines)
  raise_if referenced (app_error ErrorCode.purchase_plan_in_use (some 409))
  modify (remove_plan item.id)
