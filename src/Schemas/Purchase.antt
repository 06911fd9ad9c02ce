-- ===== src/Schemas/Purchase.antt =====
-- backend/app/schemas/__init__.py: the requests that write purchase plans and records. A field that a
-- batch request may leave unset is an `Option` of its value.
use materials_manager.Base.{ℕ, Text, Option, Bool, List, map, all_distinct, length, ltb, leb, ◌&&◌}
use materials_manager.Core.Enums.{PurchasePlanStatus}
use materials_manager.Core.Quantity.{Decimal}
use materials_manager.Model.Purchase.{Date}

pub record PurchaseMaterialCreate : Type 0 where
  pub plan_date : Option Date
  pub material_code : Option Text
  pub category : Option Text
  pub urgency : Text
  pub demand_department : Text
  pub name : Text
  pub model_spec : Text
  pub unit_name : Text
  pub actual_demand_person : Option Text
  pub purchase_responsible : Option Text
  pub planned_qty : Decimal
  pub usage : Text
  pub subitem_no : Option Text
  pub remark : Option Text
  pub stock_material_id : Option ℕ
  pub image_ids : List Text
  pub status : PurchasePlanStatus

-- The fields of `PurchaseMaterialBase`, whether the request states a status, and the version.
pub record PurchaseMaterialUpdate : Type 0 where
  pub base : PurchaseMaterialCreate
  pub status_set : Bool
  pub version : ℕ

pub record PurchasePlanVersion : Type 0 where
  pub id : ℕ
  pub version : ℕ

pub record BatchUpdatePurchasePlansRequest : Type 0 where
  pub materials : List PurchasePlanVersion
  pub plan_date : Option Date
  pub category : Option (Option Text)
  pub urgency : Option Text
  pub demand_department : Option Text
  pub actual_demand_person : Option Text
  pub purchase_responsible : Option Text
  pub subitem_no : Option (Option Text)
  pub usage : Option Text
  pub status : Option PurchasePlanStatus

-- `unique_materials` and the length of the list.
abbrev pub valid_plans : BatchUpdatePurchasePlansRequest → Bool
valid_plans request =
    ltb 0 (length request.materials)
    && (leb (length request.materials) 200 && all_distinct (map (λ r. r.id) request.materials))

pub record MovePurchasePlanRequest : Type 0 where
  pub purchase_order_no : Option (Option Text)
  pub trace_no : Option Text
  pub contract_no : Option Text
  pub vessel_no : Option Text
  pub consolidation_date : Option Date
  pub consolidation_port : Option Text
  pub sailing_date : Option Date
  pub purchase_date : Date
  pub salesperson : Option Text
  pub status : Text
  pub record_remark : Option Text

pub record BatchMovePurchasePlansRequest : Type 0 where
  pub move : MovePurchasePlanRequest
  pub material_ids : List ℕ

pub record PurchaseRecordUpdate : Type 0 where
  pub plan_date : Date
  pub material_code : Option Text
  pub category : Option Text
  pub demand_department : Text
  pub material_name : Text
  pub model_spec : Text
  pub unit_name : Text
  pub actual_demand_person : Text
  pub purchase_responsible : Text
  pub purchase_qty : ℕ
  pub usage : Text
  pub subitem_no : Option Text
  pub plan_remark : Option Text
  pub stock_material_id : Option ℕ
  pub image_ids : List Text
  pub purchase_order_no : Option Text
  pub trace_no : Option Text
  pub contract_no : Option Text
  pub vessel_no : Option Text
  pub consolidation_date : Option Date
  pub consolidation_port : Option Text
  pub sailing_date : Option Date
  pub purchase_date : Option Date
  pub salesperson : Option Text
  pub status : Text
  pub record_remark : Option Text
  pub version : ℕ

pub record PurchaseRecordVersion : Type 0 where
  pub line_id : ℕ
  pub version : ℕ

pub record BatchUpdatePurchaseRecordsRequest : Type 0 where
  pub records : List PurchaseRecordVersion
  pub plan_date : Option Date
  pub purchase_order_no : Option (Option Text)
  pub trace_no : Option (Option Text)
  pub contract_no : Option (Option Text)
  pub vessel_no : Option (Option Text)
  pub consolidation_date : Option (Option Date)
  pub consolidation_port : Option (Option Text)
  pub sailing_date : Option (Option Date)
  pub purchase_date : Option (Option Date)
  pub actual_demand_person : Option Text
  pub purchase_responsible : Option Text
  pub salesperson : Option (Option Text)
  pub status : Option Text
  pub record_remark : Option (Option Text)

-- `PurchasePlanTemplateBase`
pub record PurchasePlanTemplateCreate : Type 0 where
  pub material_code : Option Text
  pub category : Option Text
  pub urgency : Text
  pub demand_department : Text
  pub name : Text
  pub model_spec : Text
  pub unit_name : Text
  pub actual_demand_person : Option Text
  pub purchase_responsible : Option Text
  pub planned_qty : Decimal
  pub usage : Text
  pub subitem_no : Option Text
  pub remark : Option Text
  pub stock_material_id : Option ℕ
  pub image_ids : List Text

pub record PurchasePlanTemplateUpdate : Type 0 where
  pub base : PurchasePlanTemplateCreate
  pub version : ℕ
