-- ===== src/Purchase/Linked/Steps.antt =====
-- Moving, deleting and cleaning up, in any order.
use materials_manager.Base.{ℕ, ◌≡◌, Option, List}
use materials_manager.Core.Tx.{ok}
use materials_manager.Model.Purchase.{PurchaseMaterial, PurchaseRequestLine}
use materials_manager.Model.Database.{Db, Env}
use materials_manager.Schemas.Purchase.{MovePurchasePlanRequest}
use materials_manager.Purchase.Plans.{delete_purchase_material}
use materials_manager.Purchase.Records.{move_plans_to_record}
use materials_manager.Purchase.Restore.{cleanup_moved_plans_once}
use materials_manager.Purchase.Linked.{
  IsLinked, move_plans_to_record-IsLinked, delete_purchase_material-IsLinked,
  cleanup_moved_plans_once-IsLinked,
}

-- A request that succeeded, or a round of the clean-up.
pub data PlanStep : Db → Db → Type 0 where
  moved :
      (env : Env) (material_ids : List ℕ) (move : MovePurchasePlanRequest) (db : Db)
      (lines : List PurchaseRequestLine) (db' : Db)
      → move_plans_to_record env material_ids move db ≡ ok (lines, db')
      → PlanStep db db'
  deleted :
      (item : PurchaseMaterial) (version : Option ℕ) (db db' : Db)
      → delete_purchase_material item version db ≡ ok (tt, db')
      → PlanStep db db'
  cleaned : (db : Db) → PlanStep db (cleanup_moved_plans_once db).1

pub data PlanRun : Db → Db → Type 0 where
  stop : (db : Db) → PlanRun db db
  next : (db db' db'' : Db) → PlanStep db db' → PlanRun db' db'' → PlanRun db db''

PlanStep-IsLinked : (db db' : Db) → IsLinked db → PlanStep db db' → IsLinked db'
PlanStep-IsLinked _ _ h (moved env ids move db lines db' e) =
    move_plans_to_record-IsLinked env ids move db lines db' h e
PlanStep-IsLinked _ _ h (deleted item version db db' e) =
    delete_purchase_material-IsLinked item version db db' h e
PlanStep-IsLinked _ _ h (cleaned db) = cleanup_moved_plans_once-IsLinked db h

-- If every record that names a plan names one that exists, then so it is after any sequence of successful
-- moves of plans into records, successful deletions of plans and rounds of the clean-up.
pub PlanRun-IsLinked : (db db' : Db) → IsLinked db → PlanRun db db' → IsLinked db'
PlanRun-IsLinked _ _ h (stop db) = h
PlanRun-IsLinked _ _ h (next db db' db'' step run) =
    PlanRun-IsLinked db' db'' (PlanStep-IsLinked db db' h step) run
