-- ===== src/Purchase/Plans/Created.antt =====
-- The plan that `create_purchase_material` adds.
use materials_manager.Base.{
  ℕ, zero, suc, ◌+◌, ◌≡◌, refl, sym, ap, ◌∙◌, subst, Text, Option, none, some, Bool, true, false,
  List, [], ◌∷◌, All, arith,
}
use materials_manager.Core.Quantity.{tenths, validate_quantity_precision}
use materials_manager.Core.Tx.{Tx, ok, ◌>>=◌, modify, pure}
use materials_manager.Core.Tx.Ensures.{
  Ensures, Ensures-bind, Ensures-gets, Ensures-modify, Ensures-pure, Ensures-raise, Keeps,
  Keeps-gets, keeps_rules,
}
use materials_manager.Model.Purchase.{Date, PurchaseMaterial}
use materials_manager.Model.Database.{Db, Env}
use materials_manager.Schemas.Purchase.{PurchaseMaterialCreate}
use materials_manager.Purchase.Numbers.{plan_prefix, numbers_of, next_purchase_plan_no}
use materials_manager.Purchase.Numbers.Largest.{IsNumber}
use materials_manager.Purchase.Numbers.Fresh.{IsFree, all_numbers, next_purchase_plan_no_fresh}
use materials_manager.Purchase.Plans.{
  or_else, new_plan, add_plan, check_files, validate_stock_link, try_create, plan_date_of,
  create_purchase_material,
}

-- A text that is given, or what stands for one that is missing or empty.
abbrev pub chosen : Option Text → Text → Text
chosen none other = other
chosen (some []) other = other
chosen (some (c ∷ s)) other = c ∷ s

-- The fields of a plan are those of the request. Who is responsible is a backslash where the request
-- leaves it out, and the person in demand is then the one who is responsible.
pub record HasValues (request : PurchaseMaterialCreate) (item : PurchaseMaterial) : Type 0 where
  pub material_code : item.material_code ≡ request.material_code
  pub category : item.category ≡ request.category
  pub urgency : item.urgency ≡ request.urgency
  pub demand_department : item.demand_department ≡ request.demand_department
  pub name : item.name ≡ request.name
  pub model_spec : item.model_spec ≡ request.model_spec
  pub unit_name : item.unit_name ≡ request.unit_name
  pub purchase_responsible :
      item.purchase_responsible ≡ chosen request.purchase_responsible (92 ∷ [])
  pub actual_demand_person :
      item.actual_demand_person ≡ chosen request.actual_demand_person item.purchase_responsible
  pub planned_qty : item.planned_qty ≡ tenths request.planned_qty
  pub usage : item.usage ≡ request.usage
  pub subitem_no : item.subitem_no ≡ request.subitem_no
  pub remark : item.remark ≡ request.remark
  pub stock_material_id : item.stock_material_id ≡ request.stock_material_id
  pub status : item.status ≡ request.status
  pub images : item.images ≡ request.image_ids

-- The plan that was added, and the number it got.
pub record IsCreated (d : Date) (request : PurchaseMaterialCreate) (db : Db)
    (item : PurchaseMaterial) (db' : Db) : Type 0 where
  pub number : Text
  pub of_date : IsNumber d number
  pub free : IsFree number (all_numbers db)
  pub id : item.id ≡ db.next_purchase_material_id
  pub plan_no : item.plan_no ≡ number
  pub plan_date : item.plan_date ≡ d
  pub version : item.version ≡ 1
  pub values : HasValues request item
  pub added : db' ≡ record db {
    purchase_materials = item ∷ db.purchase_materials;
    next_purchase_material_id = db.next_purchase_material_id + 1;
  }

or_else-chosen : (o : Option Text) (other : Text) → or_else o other ≡ chosen o other
or_else-chosen none other = refl
or_else-chosen (some []) other = refl
or_else-chosen (some (c ∷ s)) other = refl

new_plan-HasValues :
    (id : ℕ) (number : Text) (d : Date) (request : PurchaseMaterialCreate)
    → HasValues request (new_plan id number d request)
new_plan-HasValues id number d request = record {
  material_code = refl;
  category = refl;
  urgency = refl;
  demand_department = refl;
  name = refl;
  model_spec = refl;
  unit_name = refl;
  purchase_responsible = or_else-chosen request.purchase_responsible (92 ∷ []);
  actual_demand_person = or_else-chosen request.actual_demand_person _;
  planned_qty = refl;
  usage = refl;
  subitem_no = refl;
  remark = refl;
  stock_material_id = refl;
  status = refl;
  images = refl;
}

pub added-IsCreated :
    (d : Date) (request : PurchaseMaterialCreate) (db : Db) (number : Text)
    (item : PurchaseMaterial) (db' : Db)
    → IsNumber d number
    → IsFree number (all_numbers db)
    → item ≡ new_plan db.next_purchase_material_id number d request
    → db' ≡ add_plan item db
    → IsCreated d request db item db'
added-IsCreated d request db number item db' of_date free plan added = record {
  number = number;
  of_date = of_date;
  free = free;
  id = ap (λ (m : PurchaseMaterial). m.id) plan;
  plan_no = ap (λ (m : PurchaseMaterial). m.plan_no) plan;
  plan_date = ap (λ (m : PurchaseMaterial). m.plan_date) plan;
  version = ap (λ (m : PurchaseMaterial). m.version) plan;
  values =
      subst (HasValues request) (sym plan)
        (new_plan-HasValues db.next_purchase_material_id number d request);
  added =
      added
      ∙ ap
          (λ (n : ℕ). record db {
            purchase_materials = item ∷ db.purchase_materials;
            next_purchase_material_id = n;
          })
          (omega arith);
}

quantity-Keeps :
    {P : Db → Type 0} (request : PurchaseMaterialCreate)
    → Keeps P (validate_quantity_precision request.planned_qty)
unfolding validate_quantity_precision
quantity-Keeps request = search keeps_rules

stock_link-Keeps : {P : Db → Type 0} (id : Option ℕ) → Keeps P (validate_stock_link id)
unfolding validate_stock_link
stock_link-Keeps none = search keeps_rules
stock_link-Keeps (some id) = search keeps_rules

files-Keeps : {P : Db → Type 0} (ids : List Text) → Keeps P (check_files ids)
unfolding check_files
files-Keeps ids = search keeps_rules

module _ (d : Date) (request : PurchaseMaterialCreate) (db : Db)
    (known : All (IsNumber d) (numbers_of (plan_prefix d) db)) where
  abbrev Numbered : Text → Db → Type 0
  Numbered number s = (s ≡ db) × IsNumber d number × IsFree number (all_numbers db)

  next-Ensures : Ensures (λ s. s ≡ db) (next_purchase_plan_no d) Numbered
  next-Ensures = record {
    at = λ s h number s' e.
        let q =
          next_purchase_plan_no_fresh d db number s' known
            (subst (λ (t : Db). next_purchase_plan_no d t ≡ ok (number, s')) h e) in
        (q.2, q.0, q.1);
  }

  abbrev NumberedFor : Text → ℕ → Db → Type 0
  NumberedFor number id s = Numbered number s × (db.next_purchase_material_id ≡ id)

  insert_or_retry :
      (number : Text) (id : ℕ) (retry : Tx Db PurchaseMaterial)
      → Ensures (λ s. s ≡ db) retry (IsCreated d request db)
      → (taken : Bool)
      → Ensures
          (NumberedFor number id)
          (elim taken as (λ _. Tx Db PurchaseMaterial) [
            | true ↦ retry
            | false ↦ modify (add_plan (new_plan id number d request)) >>= λ _.
                pure (new_plan id number d request)
          ])
          (IsCreated d request db)
  insert_or_retry number id retry h true = record { at = λ s p item s' e. h.at s p.0.0 item s' e }
  insert_or_retry number id retry h false =
      Ensures-bind (λ _. IsCreated d request db (new_plan id number d request))
        (Ensures-modify _ (λ s p.
          added-IsCreated d request db number _ _ p.0.1 p.0.2
            (ap (λ (i : ℕ). new_plan i number d request) (sym p.1))
            (ap (add_plan (new_plan id number d request)) p.0.0)))
        λ _. Ensures-pure _ (λ s q. q)

  try_create-IsCreated :
      (n : ℕ) → Ensures (λ s. s ≡ db) (try_create n d request) (IsCreated d request db)
  unfolding try_create
  try_create-IsCreated zero = Ensures-raise _
  try_create-IsCreated (suc n) = Ensures-bind Numbered next-Ensures λ number.
      Ensures-bind (NumberedFor number)
        (Ensures-gets _ (λ s h. (h, ap (λ (t : Db). t.next_purchase_material_id) (sym h.0))))
        λ id.
          Ensures-bind (λ _. NumberedFor number id) (Keeps-gets _)
            λ taken.
              insert_or_retry number id (try_create n d request) (try_create-IsCreated n) taken

  create-IsCreated :
      (env : Env)
      → plan_date_of env request ≡ d
      → Ensures (λ s. s ≡ db) (create_purchase_material env request) (IsCreated d request db)
  unfolding create_purchase_material
  create-IsCreated env same =
      Ensures-bind (λ _ s. s ≡ db) (quantity-Keeps request)
        λ _.
          Ensures-bind (λ _ s. s ≡ db) (stock_link-Keeps request.stock_material_id)
            λ _.
              Ensures-bind (λ _ s. s ≡ db) (files-Keeps request.image_ids)
                λ _.
                  subst
                    (λ (x : Date).
                      Ensures (λ s. s ≡ db) (try_create 3 x request) (IsCreated d request db))
                    (sym same) (try_create-IsCreated 3)

-- If the numbers of the plan's date that plans and records have are ones that the program gives, then
-- a plan that was created has a number of its date that no plan and no record had, the next id, and
-- the values of the request; and the database differs from before by that plan, which is now the first
-- row, and by the counter of the ids alone.
pub create_purchase_material-IsCreated :
    (env : Env) (request : PurchaseMaterialCreate) (db : Db) (item : PurchaseMaterial) (db' : Db)
    → All
        (IsNumber (plan_date_of env request))
        (numbers_of (plan_prefix (plan_date_of env request)) db)
    → create_purchase_material env request db ≡ ok (item, db')
    → IsCreated (plan_date_of env request) request db item db'
create_purchase_material-IsCreated env request db item db' known e =
    (create-IsCreated (plan_date_of env request) request db known env refl).at db refl item db' e
