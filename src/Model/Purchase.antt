-- ===== src/Model/Purchase.antt =====
-- backend/app/models/__init__.py: purchase plans, and the records that they become. Quantities are in
-- tenths, a date is a day number, and `images` holds file ids in the order of `sort_order`.
use materials_manager.Base.{ℕ, Text, Option, List}
use materials_manager.Core.Enums.{PurchasePlanStatus}

abbrev pub Date : Type 0
Date = ℕ

pub record PurchaseMaterial : Type 0 where
  pub id : ℕ
  pub plan_no : Text
  pub plan_date : Date
  pub material_code : Option Text
  pub category : Option Text
  pub urgency : Text
  pub demand_department : Text
  pub name : Text
  pub model_spec : Text
  pub unit_name : Text
  pub actual_demand_person : Text
  pub purchase_responsible : Text
  pub planned_qty : ℕ
  pub usage : Text
  pub subitem_no : Option Text
  pub remark : Option Text
  pub stock_material_id : Option ℕ
  pub status : PurchasePlanStatus
  pub images : List Text
  pub version : ℕ

pub record PurchasePlanTemplate : Type 0 where
  pub id : ℕ
  pub material_code : Option Text
  pub category : Option Text
  pub urgency : Text
  pub demand_department : Text
  pub name : Text
  pub model_spec : Text
  pub unit_name : Text
  pub actual_demand_person : Text
  pub purchase_responsible : Text
  pub planned_qty : ℕ
  pub usage : Text
  pub subitem_no : Option Text
  pub remark : Option Text
  pub stock_material_id : Option ℕ
  pub images : List Text
  pub version : ℕ

pub record PurchaseRequest : Type 0 where
  pub id : ℕ
  pub purchase_order_no : Option Text
  pub contract_no : Option Text
  pub vessel_no : Option Text
  pub consolidation_date : Option Date
  pub consolidation_port : Option Text
  pub sailing_date : Option Date
  pub remark : Option Text
  pub purchase_date : Option Date
  pub version : ℕ

pub record PurchaseRequestLine : Type 0 where
  pub id : ℕ
  pub purchase_request_id : ℕ
  pub purchase_material_id : Option ℕ
  pub plan_no_snapshot : Text
  pub plan_date_snapshot : Date
  pub material_code_snapshot : Option Text
  pub category_snapshot : Option Text
  pub demand_department_snapshot : Text
  pub material_name_snapshot : Text
  pub model_spec_snapshot : Text
  pub unit_name_snapshot : Text
  pub actual_demand_person_snapshot : Text
  pub purchase_responsible_snapshot : Text
  pub plan_remark_snapshot : Option Text
  pub stock_material_id_snapshot : Option ℕ
  pub purchase_qty : ℕ
  pub status : Text
  pub usage : Text
  pub subitem_no : Option Text
  pub trace_no : Option Text
  pub salesperson : Option Text
  pub images : List Text
  pub version : ℕ
