-- ===== src/Materials/Tests.antt =====
-- Runs of the stock materials, and an instance of their theorem.
use materials_manager.Base.{refl, none, some, [], ◌∷◌, text, pos}
use materials_manager.Core.Common.{validate_version}
use materials_manager.Core.Tx.{actions}
use materials_manager.Core.Enums.{PurchasePlanStatus}
use materials_manager.Model.Stock.{StockMaterial}
use materials_manager.Model.Purchase.{PurchaseMaterial, PurchasePlanTemplate}
use materials_manager.Model.Database.{Db, empty_db}
use materials_manager.Materials.{remove_material, flush_deletion, delete_stock_material}
use materials_manager.Materials.Deleted.{IsStocked, delete_stock_material-IsStocked}

abbrev nut : StockMaterial
nut = record {
  id = 4;
  uuid = text "u4";
  name = text "nut";
  name_id = none;
  alias = none;
  model_spec = text "M6";
  unit_name = text "pcs";
  remark = none;
  identity_hash = text "h4";
  replenishment_policy = none;
  images = [];
  version = 2;
}

-- A plan to buy more of them.
abbrev refill : PurchaseMaterial
refill = record {
  id = 1;
  plan_no = text "PLAN-20231114-001";
  plan_date = 19675;
  material_code = none;
  category = none;
  urgency = text "normal";
  demand_department = text "d";
  name = text "nut";
  model_spec = text "M6";
  unit_name = text "pcs";
  actual_demand_person = text "li";
  purchase_responsible = text "wu";
  planned_qty = 50;
  usage = text "u";
  subitem_no = none;
  remark = none;
  stock_material_id = some 4;
  status = PurchasePlanStatus.normal;
  images = [];
  version = 1;
}

-- A template for a thing that is no stock material.
abbrev weekly : PurchasePlanTemplate
weekly = record {
  id = 1;
  material_code = none;
  category = none;
  urgency = text "normal";
  demand_department = text "d";
  name = text "rag";
  model_spec = text "R1";
  unit_name = text "kg";
  actual_demand_person = text "li";
  purchase_responsible = text "wu";
  planned_qty = 20;
  usage = text "u";
  subitem_no = none;
  remark = none;
  stock_material_id = none;
  images = [];
  version = 1;
}

abbrev shelf : Db
shelf = record empty_db {
  stock_materials = nut ∷ [];
  stock_balances =
      record { stock_material_id = 4; quantity = pos 0; version = 1; updated_at = 0 } ∷ [];
  purchase_materials = refill ∷ [];
  purchase_plan_templates = weekly ∷ [];
}

delete_stock_material-IsStocked_example : IsStocked (remove_material 4 shelf)
unfolding actions validate_version flush_deletion delete_stock_material
delete_stock_material-IsStocked_example =
    delete_stock_material-IsStocked nut (some 2) shelf (remove_material 4 shelf)
      (record { of_lines = tt; of_plans = (refl, tt); of_templates = (refl, tt) }) refl
