-- ===== src/Purchase/Templates.antt =====
-- backend/app/services/purchase_plan_template_service.py: templates that purchase plans are generated from.
pub mod Generated
pub mod Tests
use materials_manager.Base.{
  ℕ, suc, ◌+◌, Text, text, Option, none, some, Bool, true, false, List, ◌∷◌, not, ◌==◌, find, keep,
  map, if◌then◌else◌,
}
use materials_manager.Core.Errors.{Failure, not_found}
use materials_manager.Core.Enums.{PurchasePlanStatus}
use materials_manager.Core.Common.{validate_version}
use materials_manager.Core.Quantity.{tenths, validate_quantity_precision}
use materials_manager.Core.Tx.{Tx, err, ◌>>=◌, ◌>>◌, pure, gets, modify, or_raise}
use materials_manager.Model.Purchase.{Date, PurchaseMaterial, PurchasePlanTemplate}
use materials_manager.Model.Database.{Db, Env}
use materials_manager.Schemas.Purchase.{PurchasePlanTemplateCreate, PurchasePlanTemplateUpdate}
use materials_manager.Purchase.Numbers.{next_purchase_plan_no}
use materials_manager.Purchase.Plans.{
  shanghai_today, or_else, check_files, validate_stock_link, add_plan, is_taken,
}

unfoldable pub get_template : ℕ → Tx Db PurchasePlanTemplate
get_template template_id = do
  template ← gets (λ db. find (λ t. t.id == template_id) db.purchase_plan_templates)
  or_raise template not_found

abbrev pub template_responsible : PurchasePlanTemplateCreate → Text → Text
template_responsible request fallback = or_else request.purchase_responsible fallback

abbrev pub new_template : ℕ → PurchasePlanTemplateCreate → PurchasePlanTemplate
new_template id request = record {
  id = id;
  material_code = request.material_code;
  category = request.category;
  urgency = request.urgency;
  demand_department = request.demand_department;
  name = request.name;
  model_spec = request.model_spec;
  unit_name = request.unit_name;
  actual_demand_person =
      or_else request.actual_demand_person (template_responsible request (text "\\"));
  purchase_responsible = template_responsible request (text "\\");
  planned_qty = tenths request.planned_qty;
  usage = request.usage;
  subitem_no = request.subitem_no;
  remark = request.remark;
  stock_material_id = request.stock_material_id;
  images = request.image_ids;
  version = 1;
}

abbrev pub add_template : PurchasePlanTemplate → Db → Db
add_template template db = record db {
  purchase_plan_templates = template ∷ db.purchase_plan_templates;
  next_purchase_plan_template_id = suc db.next_purchase_plan_template_id;
}

unfoldable pub create_template : PurchasePlanTemplateCreate → Tx Db PurchasePlanTemplate
create_template request = do
  validate_quantity_precision request.planned_qty
  validate_stock_link request.stock_material_id
  check_files request.image_ids
  id ← gets (λ db. db.next_purchase_plan_template_id)
  modify (add_template (new_template id request))
  pure (new_template id request)

abbrev edited_template : PurchasePlanTemplateUpdate → PurchasePlanTemplate → PurchasePlanTemplate
edited_template request template = record template {
  material_code = request.base.material_code;
  category = request.base.category;
  urgency = request.base.urgency;
  demand_department = request.base.demand_department;
  name = request.base.name;
  model_spec = request.base.model_spec;
  unit_name = request.base.unit_name;
  planned_qty = tenths request.base.planned_qty;
  usage = request.base.usage;
  subitem_no = request.base.subitem_no;
  remark = request.base.remark;
  stock_material_id = request.base.stock_material_id;
  actual_demand_person = (elim request.base.actual_demand_person [
    | some s ↦ s
    | none ↦ template.actual_demand_person
  ]);
  purchase_responsible = template_responsible request.base template.purchase_responsible;
  images = request.base.image_ids;
  version = template.version + 1;
}

abbrev put_template : PurchasePlanTemplate → Db → Db
put_template template db = record db {
  purchase_plan_templates =
      map (λ t. if t.id == template.id then template else t) db.purchase_plan_templates;
}

unfoldable pub update_template :
    PurchasePlanTemplate → PurchasePlanTemplateUpdate → Tx Db PurchasePlanTemplate
update_template template request = do
  validate_version (some request.version) template.version
  validate_quantity_precision request.base.planned_qty
  validate_stock_link request.base.stock_material_id
  check_files request.base.image_ids
  modify (put_template (edited_template request template))
  pure (edited_template request template)

abbrev remove_template : ℕ → Db → Db
remove_template id db = record db {
  purchase_plan_templates = keep (λ t. not (t.id == id)) db.purchase_plan_templates;
}

unfoldable pub delete_template : PurchasePlanTemplate → Option ℕ → Tx Db (Unit {0})
delete_template template version = do
  validate_version version template.version
  modify (remove_template template.id)

abbrev pub plan_of_template : ℕ → Text → Date → PurchasePlanTemplate → PurchaseMaterial
plan_of_template id plan_no plan_date template = record {
  id = id;
  plan_no = plan_no;
  plan_date = plan_date;
  material_code = template.material_code;
  category = template.category;
  urgency = template.urgency;
  demand_department = template.demand_department;
  name = template.name;
  model_spec = template.model_spec;
  unit_name = template.unit_name;
  actual_demand_person = template.actual_demand_person;
  purchase_responsible = template.purchase_responsible;
  planned_qty = template.planned_qty;
  usage = template.usage;
  subitem_no = template.subitem_no;
  remark = template.remark;
  stock_material_id = template.stock_material_id;
  status = PurchasePlanStatus.normal;
  images = template.images;
  version = 1;
}

-- A plan whose number breaks the unique key ends the request.
unfoldable pub insert_generated : Bool → PurchaseMaterial → Tx Db PurchaseMaterial
insert_generated true plan db = err Failure.integrity_error
insert_generated false plan db = (modify (add_plan plan) >> pure plan) db

unfoldable pub generate_purchase_plan : Env → PurchasePlanTemplate → Tx Db PurchaseMaterial
generate_purchase_plan env template = do
  plan_no ← next_purchase_plan_no (shanghai_today env)
  id ← gets (λ db. db.next_purchase_material_id)
  taken ← gets (is_taken plan_no)
  insert_generated taken (plan_of_template id plan_no (shanghai_today env) template)
