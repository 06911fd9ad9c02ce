-- ===== src/Purchase/Templates/Generated.antt =====
-- A plan that comes from a template is one that its values could have created directly.
use materials_manager.Base.{ℕ, ◌≡◌, sym, ap, ◌∙◌, none, Bool, true, false, All}
use materials_manager.Core.Enums.{PurchasePlanStatus}
use materials_manager.Core.Tx.{ok}
use materials_manager.Core.Tx.Inversion.{bind-inv, gets-inv, modify-inv, pure-inv, pure-state}
use materials_manager.Model.Purchase.{PurchaseMaterial, PurchasePlanTemplate}
use materials_manager.Model.Database.{Db, Env}
use materials_manager.Schemas.Purchase.{PurchaseMaterialCreate, PurchasePlanTemplateCreate}
use materials_manager.Purchase.Numbers.{plan_prefix, numbers_of}
use materials_manager.Purchase.Numbers.Largest.{IsNumber}
use materials_manager.Purchase.Numbers.Fresh.{next_purchase_plan_no_fresh}
use materials_manager.Purchase.Plans.{shanghai_today, add_plan}
use materials_manager.Purchase.Plans.Created.{IsCreated, added-IsCreated}
use materials_manager.Purchase.Templates.{
  new_template, create_template, plan_of_template, insert_generated, generate_purchase_plan,
}

-- The request for a plan with the values of a template's request, of the day and in normal state.
abbrev pub plan_request : PurchasePlanTemplateCreate → PurchaseMaterialCreate
plan_request request = record {
  plan_date = none;
  material_code = request.material_code;
  category = request.category;
  urgency = request.urgency;
  demand_department = request.demand_department;
  name = request.name;
  model_spec = request.model_spec;
  unit_name = request.unit_name;
  actual_demand_person = request.actual_demand_person;
  purchase_responsible = request.purchase_responsible;
  planned_qty = request.planned_qty;
  usage = request.usage;
  subitem_no = request.subitem_no;
  remark = request.remark;
  stock_material_id = request.stock_material_id;
  image_ids = request.image_ids;
  status = PurchasePlanStatus.normal;
}

create_template-inv :
    (request : PurchasePlanTemplateCreate) (db : Db) (q : PurchasePlanTemplate × Db)
    → create_template request db ≡ ok q
    → (id : ℕ) × (q.0 ≡ new_template id request)
unfolding create_template
create_template-inv request db q h =
    let (u, db1, e1, h1) = bind-inv _ _ db q h in
    let (v, db2, e2, h2) = bind-inv _ _ db1 q h1 in
    let (w, db3, e3, h3) = bind-inv _ _ db2 q h2 in
    let h4 = gets-inv _ _ db3 q h3 in
    (db3.next_purchase_plan_template_id, pure-inv _ _ q (modify-inv _ _ db3 q h4))

insert_generated-inv :
    (taken : Bool) (plan : PurchaseMaterial) (db : Db) (q : PurchaseMaterial × Db)
    → insert_generated taken plan db ≡ ok q
    → (q.0 ≡ plan) × (q.1 ≡ add_plan plan db)
unfolding insert_generated
insert_generated-inv true plan db q h = absurd (cc)
insert_generated-inv false plan db q h =
    let h1 = modify-inv _ _ db q h in (pure-inv _ _ q h1, pure-state _ _ q h1)

-- If the numbers of today that plans and records have are ones that the program gives, then a plan that is
-- generated from a template that was created, however the database has changed since, is a plan as
-- `create_purchase_material` makes one today from the same values: its number is one of today that no plan
-- and no record had, its id is the next one, and the database differs from before by that plan alone.
pub generate_purchase_plan-IsCreated :
    (env : Env) (request : PurchasePlanTemplateCreate) (db db' : Db) (t : PurchasePlanTemplate × Db)
    (q : PurchaseMaterial × Db)
    → create_template request db ≡ ok t
    → All (IsNumber (shanghai_today env)) (numbers_of (plan_prefix (shanghai_today env)) db')
    → generate_purchase_plan env t.0 db' ≡ ok q
    → IsCreated (shanghai_today env) (plan_request request) db' q.0 q.1
unfolding generate_purchase_plan
generate_purchase_plan-IsCreated env request db db' t q made known h =
    let (id, template) = create_template-inv request db t made in
    let (number, s, en, h1) = bind-inv _ _ db' q h in
    let (valid, free, same) =
      next_purchase_plan_no_fresh (shanghai_today env) db' number s known en in
    let h2 = gets-inv _ _ s q h1 in
    let (plan, added) = insert_generated-inv _ _ s q (gets-inv _ _ s q h2) in
    added-IsCreated (shanghai_today env) (plan_request request) db' number q.0 q.1 valid free
      (plan
        ∙ ap
            (λ (d : Db).
              plan_of_template d.next_purchase_material_id number (shanghai_today env) t.0)
            same
        ∙ ap (plan_of_template db'.next_purchase_material_id number (shanghai_today env)) template)
      (added ∙ ap (add_plan _) same ∙ ap (λ i. add_plan i db') (sym plan))
