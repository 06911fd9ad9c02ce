-- ===== src/Purchase/Templates/Tests.antt =====
-- A run of the templates, and an instance of their theorem.
use materials_manager.Base.{◌≡◌, refl, text, none, some, []}
use materials_manager.Core.Calendar.{date_of_days, format_date, zero_padded}
use materials_manager.Core.Quantity.{tenths, decimal_exponent, validate_quantity_precision}
use materials_manager.Core.Tx.{ok, actions}
use materials_manager.Model.Purchase.{PurchaseMaterial, PurchasePlanTemplate}
use materials_manager.Model.Database.{Db, Env, empty_db}
use materials_manager.Schemas.Purchase.{PurchasePlanTemplateCreate}
use materials_manager.Purchase.Numbers.{max_text, next_index, next_purchase_plan_no}
use materials_manager.Purchase.Plans.{shanghai_today, check_files, validate_stock_link, add_plan}
use materials_manager.Purchase.Plans.Created.{IsCreated}
use materials_manager.Purchase.Templates.{
  new_template, add_template, create_template, plan_of_template, insert_generated,
  generate_purchase_plan,
}
use materials_manager.Purchase.Templates.Generated.{plan_request, generate_purchase_plan-IsCreated}

abbrev filters : PurchasePlanTemplateCreate
filters = record {
  material_code = none;
  category = none;
  urgency = text "normal";
  demand_department = text "d";
  name = text "filter";
  model_spec = text "F1";
  unit_name = text "pcs";
  actual_demand_person = none;
  purchase_responsible = some (text "Li");
  planned_qty = record { coefficient = 4; places = 0 };
  usage = text "monthly";
  subitem_no = none;
  remark = none;
  stock_material_id = none;
  image_ids = [];
}

abbrev noon : Env
noon = record { now = 1700000000000000; event_id = text "e1" }

abbrev template : PurchasePlanTemplate
template = new_template 1 filters

abbrev with_template : Db
with_template = add_template template empty_db

creates : create_template filters empty_db ≡ ok (template, with_template)
unfolding create_template validate_quantity_precision decimal_exponent validate_stock_link
    check_files tenths actions
creates = refl

abbrev generated : PurchaseMaterial
generated = plan_of_template 1 (text "PLAN-20231115-001") (shanghai_today noon) template

generates :
    generate_purchase_plan noon template with_template
    ≡ ok (generated, add_plan generated with_template)
unfolding generate_purchase_plan insert_generated next_purchase_plan_no next_index max_text
    zero_padded format_date date_of_days actions tenths
generates = refl

generate_purchase_plan-IsCreated_example :
    IsCreated
      (shanghai_today noon)
      (plan_request filters)
      with_template
      generated
      (add_plan generated with_template)
generate_purchase_plan-IsCreated_example =
    generate_purchase_plan-IsCreated noon filters empty_db with_template (template, with_template)
      (generated, add_plan generated with_template) creates tt generates
