-- ===== src/Purchase/Restore.antt =====
-- `restore_purchase_record_to_plan` of backend/app/services/purchase_request_service.py, and the
-- worker of purchase_plan_cleanup_service.py that deletes the plans that were moved.
pub mod Cleanup
pub mod Left
pub mod Removed
use materials_manager.Base.{
  ℕ, suc, zero, ◌+◌, Text, text, Option, none, some, Bool, true, false, List, [], ◌∷◌, not, ◌&&◌,
  ◌||◌, ◌==◌, any, keep, find, map, contains, length, take, if◌then◌else◌,
}
use materials_manager.Core.Errors.{Failure, not_found}
use materials_manager.Core.Enums.{PurchasePlanStatus}
use materials_manager.Core.Common.{validate_version}
use materials_manager.Core.Tx.{Tx, ok, err, ◌>>=◌, ◌>>◌, pure, gets, modify, or_raise, or_key_error}
use materials_manager.Model.Purchase.{PurchaseMaterial, PurchaseRequest, PurchaseRequestLine}
use materials_manager.Model.Database.{Db}
use materials_manager.Inventory.Validate.{sorted_set}
use materials_manager.Purchase.Plans.{plan_of, put_plan, add_plan, is_taken, is_of_plan}
use materials_manager.Purchase.Records.{was_moved}

-- The plan that is built from the snapshots of a record whose plan is gone.
abbrev pub rebuilt_plan : ℕ → PurchaseRequestLine → PurchaseMaterial
rebuilt_plan id line = record {
  id = id;
  plan_no = line.plan_no_snapshot;
  plan_date = line.plan_date_snapshot;
  material_code = line.material_code_snapshot;
  category = line.category_snapshot;
  urgency = text "正常";
  demand_department = line.demand_department_snapshot;
  name = line.material_name_snapshot;
  model_spec = line.model_spec_snapshot;
  unit_name = line.unit_name_snapshot;
  actual_demand_person = line.actual_demand_person_snapshot;
  purchase_responsible = line.purchase_responsible_snapshot;
  planned_qty = line.purchase_qty;
  usage = line.usage;
  subitem_no = line.subitem_no;
  remark = line.plan_remark_snapshot;
  stock_material_id = line.stock_material_id_snapshot;
  status = PurchasePlanStatus.normal;
  images = line.images;
  version = 1;
}

abbrev pub revived_plan : PurchaseMaterial → PurchaseMaterial
revived_plan material = record material {
  status = PurchasePlanStatus.normal;
  version = material.version + 1;
}

-- The insertion of a plan; its number is a unique key.
unfoldable pub insert_plan : PurchaseMaterial → Tx Db PurchaseMaterial
insert_plan item db =
    if is_taken item.plan_no db then err Failure.integrity_error else ok (item, add_plan item db)

-- `line.purchase_material`: none if the record names no plan, or one that is gone.
abbrev pub material_of_line : PurchaseRequestLine → Db → Option PurchaseMaterial
material_of_line line db = elim line.purchase_material_id [
  | none ↦ none
  | some material_id ↦ plan_of material_id db
]

-- The plan of the record, or a new one.
unfoldable pub revive : PurchaseRequestLine → Tx Db PurchaseMaterial
revive line = do
  found ← gets (material_of_line line)
  elim found [
    | none ↦ do id ← gets (λ db. db.next_purchase_material_id); insert_plan (rebuilt_plan id line)
    | some material ↦ do modify (put_plan (revived_plan material)); pure (revived_plan material)
  ]

abbrev pub is_sibling : PurchaseRequestLine → PurchaseRequestLine → Bool
is_sibling line other =
    other.purchase_request_id == line.purchase_request_id && not (other.id == line.id)

abbrev pub remove_record : PurchaseRequestLine → Db → Db
remove_record line db = record db {
  purchase_request_lines = keep (λ l. not (l.id == line.id)) db.purchase_request_lines;
}

-- Deleting a request deletes its lines.
abbrev pub remove_request : ℕ → Db → Db
remove_request id db = record db {
  purchase_requests = keep (λ r. not (r.id == id)) db.purchase_requests;
  purchase_request_lines = keep (λ l. not (l.purchase_request_id == id)) db.purchase_request_lines;
}

abbrev pub bump_request : ℕ → Db → Db
bump_request id db = record db {
  purchase_requests =
      map (λ r. if r.id == id then record r { version = r.version + 1 } else r)
        db.purchase_requests;
}

unfoldable pub restore_purchase_record_to_plan :
    PurchaseRequestLine → Option ℕ → Tx Db PurchaseMaterial
restore_purchase_record_to_plan line version = do
  found ← gets (λ db. find (λ r. r.id == line.purchase_request_id) db.purchase_requests)
  request ← or_raise found not_found
  validate_version version request.version
  material ← revive line
  other ← gets (λ db. any (is_sibling line) db.purchase_request_lines)
  elim other [
    | false ↦ modify (remove_request request.id)
    | true ↦ modify (λ db. remove_record line (bump_request request.id db))
  ]
  pure material

-- `func.trim(plan_no_snapshot) != ""`
abbrev pub has_number : PurchaseRequestLine → Bool
has_number line = any (λ c. not (c == 32)) line.plan_no_snapshot

-- A plan that a record with a number has come from.
abbrev pub is_candidate : List PurchaseRequestLine → PurchaseMaterial → Bool
is_candidate lines material = any (λ l. is_of_plan material.id l && has_number l) lines

-- `_BATCH_SIZE` ids of such plans, the smallest first.
unfoldable pub candidate_ids : Db → List ℕ
candidate_ids db = take 50 (
    sorted_set
      (map (λ m. m.id) (keep (is_candidate db.purchase_request_lines) db.purchase_materials)))

abbrev pub unbind : List ℕ → PurchaseRequestLine → PurchaseRequestLine
unbind ids line = if was_moved ids line then record line { purchase_material_id = none } else line

-- The records are unbound first; then the plans are deleted.
abbrev pub delete_plans : List ℕ → Db → Db
delete_plans ids db = record db {
  purchase_request_lines = map (unbind ids) db.purchase_request_lines;
  purchase_materials = keep (λ m. not (contains m.id ids)) db.purchase_materials;
}

unfoldable pub cleanup_moved_plans_once : Db → ℕ × Db
cleanup_moved_plans_once db = (length (candidate_ids db), delete_plans (candidate_ids db) db)

-- `while await cleanup_moved_plans_once() > 0`, on fuel.
unfoldable pub cleanup_moved_plans : ℕ → Db → Db
cleanup_moved_plans zero db = db
cleanup_moved_plans (suc fuel) db =
    let (count, db') = cleanup_moved_plans_once db in
    let rest = cleanup_moved_plans fuel db' in if count == 0 then db' else rest
