-- ===== src/MiniProgram/Purchases/Tests.antt =====
-- An instance of the theorem on the plans of the mini program.
use materials_manager.Base.{◌≡◌, refl, text, text_eq, none, [], ◌∷◌, arith}
use materials_manager.Core.Enums.{PurchasePlanStatus}
use materials_manager.Core.Paging.{order_rows, contains_any, split_or_search_terms}
use materials_manager.Core.Tx.{ok}
use materials_manager.Model.Purchase.{PurchaseMaterial}
use materials_manager.Model.Database.{Db, empty_db}
use materials_manager.MiniProgram.Purchases.{
  plan_query, first_id, detail_read, purchase_plan_detail,
}
use materials_manager.MiniProgram.Purchases.Next.{purchase_plan_detail-next}

abbrev pump : PurchaseMaterial
pump = record {
  id = 5;
  plan_no = text "PLAN-20231114-001";
  plan_date = 19675;
  material_code = none;
  category = none;
  urgency = text "urgent";
  demand_department = text "d";
  name = text "pump";
  model_spec = text "P1";
  unit_name = text "pcs";
  actual_demand_person = text "li";
  purchase_responsible = text "wu";
  planned_qty = 20;
  usage = text "u";
  subitem_no = none;
  remark = none;
  stock_material_id = none;
  status = PurchasePlanStatus.normal;
  images = [];
  version = 1;
}

abbrev valve : PurchaseMaterial
valve = record pump { id = 9; plan_no = text "PLAN-20231114-002" }

-- The plan between the two is put off, and is not listed.
abbrev plans : Db
plans = record empty_db {
  purchase_materials =
      pump ∷ record pump { id = 7; status = PurchasePlanStatus.deferred } ∷ valve ∷ [];
}

plans_listed : plan_query text_eq text_eq none none none plans ≡ valve ∷ pump ∷ []
unfolding plan_query contains_any split_or_search_terms order_rows
plans_listed = refl

purchase_plan_detail-next_example :
    purchase_plan_detail 9 plans ≡ ok (detail_read valve (first_id (pump ∷ [])), plans)
purchase_plan_detail-next_example =
    purchase_plan_detail-next text_eq text_eq plans [] valve (pump ∷ [])
      (
        (λ e. ground (arith, e), (λ e. ground (arith, e), tt)),
        ((λ e. ground (arith, e), tt), (tt, tt)),
      )
      plans_listed
