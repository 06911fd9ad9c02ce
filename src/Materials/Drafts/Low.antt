-- ===== src/Materials/Drafts/Low.antt =====
-- A draft is a plan for a material that is low.
use materials_manager.Base.{
  ℕ, ◌≡◌, refl, sym, subst, ℤ, ltb_ℤ, Option, none, some, Bool, true, false, All, ◌==◌, find, not,
  ◌||◌, ◌≤◌, Text, text, ◌++◌, [], ◌∷◌, length, arith,
}
use materials_manager.Core.Quantity.{tenths, validate_quantity_precision, Decimal}
use materials_manager.Core.Tx.{Tx, ok, ◌>>=◌, ◌>>◌, pure}
use materials_manager.Core.Tx.Inversion.{
  bind-inv, gets-inv, or_raise-inv, raise_if-inv, pure-inv, pure-state,
}
use materials_manager.Model.Stock.{StockMaterial, StockBalance, StockReplenishmentPolicy}
use materials_manager.Model.Purchase.{Date, PurchaseMaterial}
use materials_manager.Model.Database.{Db, Env}
use materials_manager.Schemas.Purchase.{PurchaseMaterialCreate}
use materials_manager.Purchase.Numbers.{plan_prefix, numbers_of}
use materials_manager.Purchase.Numbers.Largest.{IsNumber}
use materials_manager.Purchase.Plans.{shanghai_today}
use materials_manager.Purchase.Plans.Created.{chosen, IsCreated, create_purchase_material-IsCreated}
use materials_manager.Inventory.Replay.{balance_of}
use materials_manager.Materials.Drafts.Newest.{IsNewestCode, previous_code-IsNewestCode}
use materials_manager.Core.Enums.{PurchasePlanStatus}
use materials_manager.Materials.Drafts.{
  ReplenishmentDraftCreate, draft_remark, value_error_if, is_not_low, create_replenishment_draft,
}

precision-inv :
    {A : Type 0} (d : Decimal) (k : Tx Db A) (db : Db) (q : A × Db)
    → (validate_quantity_precision d >> k) db ≡ ok q
    → k db ≡ ok q
unfolding validate_quantity_precision
precision-inv d k db q h = (raise_if-inv _ _ k db q h).1

value_error_if-inv :
    {A : Type 0} (long : Bool) (k : Tx Db A) (db : Db) (q : A × Db)
    → (value_error_if long >> k) db ≡ ok q
    → (long ≡ false) × (k db ≡ ok q)
unfolding value_error_if ◌>>=◌ pure
value_error_if-inv true k db q h = absurd (cc)
value_error_if-inv false k db q h = (refl, h)

-- The policy of a material that is low.
low_policy :
    (quantity : ℤ) (policy : Option StockReplenishmentPolicy)
    → is_not_low quantity policy ≡ false
    → (p : StockReplenishmentPolicy) × (policy ≡ some p)
      × (p.enabled ≡ true)
      × (ltb_ℤ p.minimum_qty quantity ≡ false)
low_policy quantity none h = absurd (cc)
low_policy quantity (some p) h =
    let (e, l) = both p.enabled (ltb_ℤ p.minimum_qty quantity) h in (p, refl, e, l)
  where
    both : (a b : Bool) → (not a || b) ≡ false → (a ≡ true) × (b ≡ false)
    both true b k = (refl, k)
    both false b k = absurd (cc)

-- The remark of the material comes first, if it has one.
abbrev pub StartsWith : Option Text → Text → Type 0
StartsWith none remark = Unit
StartsWith (some s) remark = (t : Text) × (remark ≡ s ++ t)

draft_remark-StartsWith : (o : Option Text) (note : Text) → StartsWith o (draft_remark o note)
draft_remark-StartsWith none note = tt
draft_remark-StartsWith (some []) note = (note, refl)
draft_remark-StartsWith (some (c ∷ s)) note = (text "；" ++ note, refl)

-- The values of a draft: those of the material, of the request, and of the form.
pub record HasDraftValues (request : ReplenishmentDraftCreate) (stock : StockMaterial) (db : Db)
    (plan : PurchaseMaterial) : Type 0 where
  pub name : plan.name ≡ stock.name
  pub model_spec : plan.model_spec ≡ stock.model_spec
  pub unit_name : plan.unit_name ≡ stock.unit_name
  pub of_stock : plan.stock_material_id ≡ some stock.id
  pub images : plan.images ≡ stock.images
  pub code : IsNewestCode stock.id db.purchase_materials plan.material_code
  pub planned_qty : plan.planned_qty ≡ tenths request.planned_qty
  pub purchase_responsible :
      plan.purchase_responsible ≡ chosen (some request.purchase_responsible) (text "\\")
  pub actual_demand_person :
      plan.actual_demand_person
      ≡ chosen (some request.actual_demand_person) plan.purchase_responsible
  pub usage : plan.usage ≡ text "低库存补库"
  pub status : plan.status ≡ PurchasePlanStatus.normal
  pub remark : Text
  pub has_remark : plan.remark ≡ some remark
  pub starts : StartsWith stock.remark remark
  pub fits : length remark ≤ 1000

pub record IsDrafted (env : Env) (id : ℕ) (request : ReplenishmentDraftCreate) (db : Db)
    (q : ℕ × Db) : Type 0 where
  pub stock : StockMaterial
  pub of_id : find (λ m. m.id == id) db.stock_materials ≡ some stock
  pub balance : StockBalance
  pub has_balance : balance_of stock.id db ≡ some balance
  pub policy : StockReplenishmentPolicy
  pub has_policy : stock.replenishment_policy ≡ some policy
  pub enabled : policy.enabled ≡ true
  pub low : ltb_ℤ policy.minimum_qty balance.quantity ≡ false
  pub plan : PurchaseMaterial
  pub values : HasDraftValues request stock db plan
  pub made : PurchaseMaterialCreate
  pub created :
      IsCreated
        (elim request.demand_date [ some d ↦ d | none ↦ shanghai_today env ])
        made
        db
        plan
        q.1
  pub answered : q.0 ≡ plan.id

-- A draft that succeeds is for a material with an enabled policy whose balance is not above the minimum. If
-- the numbers that plans and records have are ones that the program gives, it adds one plan, on the demand
-- date, or today without one, with a number that no plan and no record had, and answers its id. The
-- plan has the name, the specification, the unit and the images of the material and refers to it, the quantity
-- and the persons of the request, the usage of a draft, and the material code of the newest plan of the material
-- that has one. Its remark starts with that of the material and is at most 1000 characters long.
pub create_replenishment_draft-IsDrafted :
    (env : Env) (id : ℕ) (request : ReplenishmentDraftCreate) (db : Db) (q : ℕ × Db)
    → ((d : Date) → All (IsNumber d) (numbers_of (plan_prefix d) db))
    → create_replenishment_draft env id request db ≡ ok q
    → IsDrafted env id request db q
unfolding create_replenishment_draft
create_replenishment_draft-IsDrafted env id request db q known h =
    let h1 = gets-inv _ _ db q h in
    let (stock, es, h2) = or_raise-inv _ _ _ db q h1 in
    let h3 = gets-inv _ _ db q h2 in
    let (balance, eb, h4) = or_raise-inv _ _ _ db q h3 in
    let (is_low, h5) = raise_if-inv _ _ _ db q h4 in
    let h6 = gets-inv _ _ db q h5 in
    let h7 = precision-inv _ _ db q h6 in
    let h8 = gets-inv _ _ db q h7 in
    let (short, h9) = value_error_if-inv _ _ db q h8 in
    let (plan, db', e, h10) = bind-inv _ _ db q h9 in
    let (policy, ep, enabled, low) =
      low_policy balance.quantity stock.replenishment_policy is_low in
    let created = create_purchase_material-IsCreated env _ db plan db' (known _) e in
    let values = created.values in
    record {
      stock = stock;
      of_id = es;
      balance = balance;
      has_balance = eb;
      policy = policy;
      has_policy = ep;
      enabled = enabled;
      low = low;
      plan = plan;
      values = record {
        name = values.name;
        model_spec = values.model_spec;
        unit_name = values.unit_name;
        of_stock = values.stock_material_id;
        images = values.images;
        code =
            subst (IsNewestCode stock.id db.purchase_materials) (sym values.material_code)
              (previous_code-IsNewestCode stock.id db);
        planned_qty = values.planned_qty;
        purchase_responsible = values.purchase_responsible;
        actual_demand_person = values.actual_demand_person;
        usage = values.usage;
        status = values.status;
        remark = _;
        has_remark = values.remark;
        starts = draft_remark-StartsWith stock.remark _;
        fits = ground (arith, short);
      };
      made = _;
      created = subst (IsCreated _ _ db plan) (sym (pure-state _ db' q h10)) created;
      answered = pure-inv _ db' q h10;
    }
