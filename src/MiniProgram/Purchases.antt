-- ===== src/MiniProgram/Purchases.antt =====
-- The purchase plans and records as the mini program lists them: backend/app/services/mini_program_service.py
-- and `search_mini_program_purchase_records` of backend/app/repositories/purchase_request_repository.py. The
-- comparisons of the database are parameters: `contains` is `LIKE`, and `trimmed_is` compares a trimmed
-- column with a text.
pub mod Ordered
pub mod Next
pub mod Tests
use materials_manager.Base.{
  ℕ, Text, Option, none, some, Bool, true, false, List, [], ◌∷◌, not, ◌&&◌, ◌==◌, ltb, any, find,
  keep, length, truthy, truthy?, strip, if◌then◌else◌,
}
use materials_manager.Core.Errors.{not_found}
use materials_manager.Core.Enums.{PurchasePlanStatus}
use materials_manager.Core.Paging.{contains_any, order_rows, page_of}
use materials_manager.Core.Tx.{Tx, ◌>>=◌, pure, gets, or_raise}
use materials_manager.Model.Purchase.{Date, PurchaseMaterial, PurchaseRequest, PurchaseRequestLine}
use materials_manager.Model.Database.{Db}
use materials_manager.Purchase.Plans.{is_of_plan}

abbrev is_normal : PurchasePlanStatus → Bool
is_normal PurchasePlanStatus.normal = true
is_normal _ = false

-- A plan in normal state that no record was made from.
abbrev pub is_open : Db → PurchaseMaterial → Bool
is_open db item = is_normal item.status && not (any (is_of_plan item.id) db.purchase_request_lines)

abbrev pub newer_plan : PurchaseMaterial → PurchaseMaterial → Bool
newer_plan a b = ltb b.id a.id

module _ (contains trimmed_is : Text → Text → Bool) where
  -- `if value: query.where(func.trim(column) == value.strip())`
  abbrev trimmed_condition : Option Text → Option Text → Bool
  trimmed_condition column none = true
  trimmed_condition column (some value) =
      if truthy value
      then (elim column [ none ↦ false | some text ↦ trimmed_is text (strip value) ])
      else true

  -- `if actual_demand_person:` before the search terms.
  abbrev person_condition : Text → Option Text → Bool
  person_condition column value =
      if truthy? value then contains_any contains (some column ∷ []) value else true

  -- The rows of the query of `list_purchase_plans`, in its order.
  unfoldable pub plan_query : Option Text → Option Text → Option Text → Db → List PurchaseMaterial
  plan_query keyword actual_demand_person subitem_no db = order_rows newer_plan (
      keep
        (λ item.
          is_open db item
          && (contains_any contains (some item.name ∷ some item.model_spec ∷ []) keyword
              && (person_condition item.actual_demand_person actual_demand_person
                  && trimmed_condition item.subitem_no subitem_no)))
        db.purchase_materials)

  unfoldable pub list_purchase_plans :
      Option Text → ℕ → ℕ → Option Text → Option Text → Db → List PurchaseMaterial × ℕ
  list_purchase_plans keyword page page_size actual_demand_person subitem_no db =
      let rows = plan_query keyword actual_demand_person subitem_no db in
      (page_of page page_size rows, length rows)

  abbrev pub order_no_of : Option PurchaseRequest → Option Text
  order_no_of none = none
  order_no_of (some request) = request.purchase_order_no

  abbrev pub parent_request : Db → PurchaseRequestLine → Option PurchaseRequest
  parent_request db line = find (λ r. r.id == line.purchase_request_id) db.purchase_requests

  abbrev newer_line : PurchaseRequestLine → PurchaseRequestLine → Bool
  newer_line a b = ltb b.id a.id

  unfoldable pub record_query :
      Option Text → Option Text → Option Text → Db → List PurchaseRequestLine
  record_query keyword status subitem_no db = order_rows newer_line (
      keep
        (λ line.
          contains_any contains
            (some line.material_name_snapshot
              ∷ some line.model_spec_snapshot
              ∷ line.trace_no
              ∷ order_no_of (parent_request db line)
              ∷ [])
            keyword
          && (trimmed_condition (some line.status) status
              && trimmed_condition line.subitem_no subitem_no))
        db.purchase_request_lines)

  unfoldable pub list_purchase_records :
      Option Text → Option Text → Option Text → ℕ → ℕ → Db → List PurchaseRequestLine × ℕ
  list_purchase_records keyword status subitem_no page page_size db =
      let rows = record_query keyword status subitem_no db in
      (page_of page page_size rows, length rows)

pub record MiniProgramPurchasePlanItemRead : Type 0 where
  pub id : ℕ
  pub plan_no : Text
  pub plan_date : Date
  pub name : Text
  pub model_spec : Text
  pub unit_name : Text
  pub planned_qty : ℕ
  pub actual_demand_person : Text
  pub purchase_responsible : Text
  pub urgency : Text

abbrev pub purchase_plan_item_read : PurchaseMaterial → MiniProgramPurchasePlanItemRead
purchase_plan_item_read item = record {
  id = item.id;
  plan_no = item.plan_no;
  plan_date = item.plan_date;
  name = item.name;
  model_spec = item.model_spec;
  unit_name = item.unit_name;
  planned_qty = item.planned_qty;
  actual_demand_person = item.actual_demand_person;
  purchase_responsible = item.purchase_responsible;
  urgency = item.urgency;
}

-- `images` are the ids of the files.
pub record MiniProgramPurchasePlanDetailRead : Type 0 where
  pub item : MiniProgramPurchasePlanItemRead
  pub material_code : Option Text
  pub category : Option Text
  pub demand_department : Text
  pub usage : Text
  pub subitem_no : Option Text
  pub remark : Option Text
  pub images : List Text
  pub next_id : Option ℕ

abbrev pub detail_read : PurchaseMaterial → Option ℕ → MiniProgramPurchasePlanDetailRead
detail_read item next_id = record {
  item = purchase_plan_item_read item;
  material_code = item.material_code;
  category = item.category;
  demand_department = item.demand_department;
  usage = item.usage;
  subitem_no = item.subitem_no;
  remark = item.remark;
  images = item.images;
  next_id = next_id;
}

abbrev pub first_id : List PurchaseMaterial → Option ℕ
first_id [] = none
first_id (item ∷ rest) = some item.id

-- `PurchaseMaterial.id < item.id`, the largest first, `limit(1)`
unfoldable pub next_plan_id : ℕ → Db → Option ℕ
next_plan_id id db =
    first_id (order_rows newer_plan (keep (λ m. is_open db m && ltb m.id id) db.purchase_materials))

unfoldable pub purchase_plan_detail : ℕ → Tx Db MiniProgramPurchasePlanDetailRead
purchase_plan_detail material_id = do
  found ← gets (λ db. find (λ m. m.id == material_id && is_open db m) db.purchase_materials)
  item ← or_raise found not_found
  next_id ← gets (next_plan_id item.id)
  pure (detail_read item next_id)
