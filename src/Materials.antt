-- ===== src/Materials.antt =====
-- The stock materials of backend/app/services/material_service.py, and `set_policy` of
-- replenishment_service.py. `identity_hash` of services/common.py rests on Unicode normalisation and
-- SHA-256 and is a parameter.
pub mod Deleted
pub mod Drafts
mod Tests
use materials_manager.Base.{
  ℕ, suc, ◌+◌, pos, Text, text_eq, Option, none, some, Bool, true, false, List, [], ◌∷◌, not, ◌&&◌,
  ◌||◌, ◌==◌, any, keep, map, or_none, if◌then◌else◌,
}
use materials_manager.Core.Errors.{ErrorCode, app_error, Failure}
use materials_manager.Core.Common.{validate_version}
use materials_manager.Core.Quantity.{Decimal, tenths, validate_quantity_precision}
use materials_manager.Core.Tx.{Result, ok, err, Tx, ◌>>=◌, ◌>>◌, pure, gets, modify, raise_if}
use materials_manager.Model.Stock.{
  StockMaterial, StockBalance, StockOperation, StockOperationLine, StockReplenishmentPolicy,
}
use materials_manager.Model.Purchase.{PurchaseMaterial, PurchasePlanTemplate}
use materials_manager.Model.Database.{Db, Env}
use materials_manager.Purchase.Plans.{check_files}

-- The fields of `StockMaterialBase`.
pub record StockMaterialCreate : Type 0 where
  pub name : Text
  pub name_id : Option Text
  pub alias : Option Text
  pub model_spec : Text
  pub unit_name : Text
  pub remark : Option Text
  pub image_ids : List Text

pub record StockMaterialUpdate : Type 0 where
  pub base : StockMaterialCreate
  pub version : ℕ

pub record ReplenishmentPolicyWrite : Type 0 where
  pub minimum_qty : Decimal
  pub enabled : Bool
  pub version : Option ℕ

-- `stock_material_ids_with_operations`, for one material.
abbrev pub names_material : ℕ → StockOperation → Bool
names_material id op = any (λ line. line.stock_material_id == id) op.lines

abbrev pub has_operations : ℕ → Db → Bool
has_operations id db = any (names_material id) db.stock_operations

abbrev pub unlink_id : ℕ → Option ℕ → Option ℕ
unlink_id id none = none
unlink_id id (some s) = if s == id then none else some s

-- `UPDATE ... SET stock_material_id = NULL WHERE stock_material_id = id`
abbrev pub unlink_plan : ℕ → PurchaseMaterial → PurchaseMaterial
unlink_plan id m = record m { stock_material_id = unlink_id id m.stock_material_id }

-- The balance and the policy of a material are deleted with it.
abbrev pub remove_material : ℕ → Db → Db
remove_material id db = record db {
  purchase_materials = map (unlink_plan id) db.purchase_materials;
  stock_materials = keep (λ m. not (m.id == id)) db.stock_materials;
  stock_balances = keep (λ b. not (b.stock_material_id == id)) db.stock_balances;
}

abbrev pub is_template_of : ℕ → PurchasePlanTemplate → Bool
is_template_of id template = elim template.stock_material_id [ some s ↦ s == id | none ↦ false ]

-- The flush of the deletion breaks the foreign key of a template that names the material.
unfoldable pub flush_deletion : ℕ → Tx Db (Unit {0})
flush_deletion id db =
    if any (is_template_of id) db.purchase_plan_templates
    then err Failure.integrity_error
    else ok (tt, remove_material id db)

unfoldable pub delete_stock_material : StockMaterial → Option ℕ → Tx Db (Unit {0})
delete_stock_material item version = do
  validate_version version item.version
  used ← gets (has_operations item.id)
  raise_if used (app_error ErrorCode.stock_material_in_use (some 409))
  flush_deletion item.id

abbrev pub replace_material : StockMaterial → StockMaterial → StockMaterial
replace_material item m = if m.id == item.id then item else m

abbrev pub put_material : StockMaterial → Db → Db
put_material item db = record db {
  stock_materials = map (replace_material item) db.stock_materials;
}

-- The unique key over `identity_hash`, which the row of `id` itself does not break.
abbrev pub is_duplicate : ℕ → Text → Db → Bool
is_duplicate id hash db =
    any (λ m. text_eq m.identity_hash hash && not (m.id == id)) db.stock_materials

module _ (identity_hash : Text → Text → Text → Text) where
  abbrev pub new_material : ℕ → Text → StockMaterialCreate → StockMaterial
  new_material id uuid request = record {
    id = id;
    uuid = uuid;
    name = request.name;
    name_id = or_none request.name_id;
    alias = or_none request.alias;
    model_spec = request.model_spec;
    unit_name = request.unit_name;
    remark = request.remark;
    identity_hash = identity_hash request.name request.model_spec request.unit_name;
    replenishment_policy = none;
    images = request.image_ids;
    version = 1;
  }

  abbrev pub add_material : Env → StockMaterial → Db → Db
  add_material env item db = record db {
    stock_materials = item ∷ db.stock_materials;
    stock_balances =
        record { stock_material_id = item.id; quantity = pos 0; version = 1; updated_at = env.now }
        ∷ db.stock_balances;
    next_stock_material_id = suc db.next_stock_material_id;
  }

  -- `uuid` is the fresh `uuid4()` of the new row.
  unfoldable pub create_stock_material : Env → Text → StockMaterialCreate → Tx Db StockMaterial
  create_stock_material env uuid request = do
    check_files request.image_ids
    id ← gets (λ db. db.next_stock_material_id)
    taken ← gets (is_duplicate id (new_material id uuid request).identity_hash)
    raise_if taken (app_error ErrorCode.duplicate_material (some 409))
    modify (add_material env (new_material id uuid request))
    pure (new_material id uuid request)

  abbrev pub edited_material : StockMaterialUpdate → StockMaterial → StockMaterial
  edited_material request item = record item {
    name = request.base.name;
    name_id = or_none request.base.name_id;
    alias = or_none request.base.alias;
    model_spec = request.base.model_spec;
    unit_name = request.base.unit_name;
    remark = request.base.remark;
    identity_hash = identity_hash request.base.name request.base.model_spec request.base.unit_name;
    images = request.base.image_ids;
    version = item.version + 1;
  }

  unfoldable pub update_stock_material : StockMaterial → StockMaterialUpdate → Tx Db StockMaterial
  update_stock_material item request = do
    validate_version (some request.version) item.version
    check_files request.base.image_ids
    taken ← gets (is_duplicate item.id (edited_material request item).identity_hash)
    raise_if taken (app_error ErrorCode.duplicate_material (some 409))
    modify (put_material (edited_material request item))
    pure (edited_material request item)

-- A first policy has version 1, whatever version the request states.
abbrev pub written_policy :
    ReplenishmentPolicyWrite → Option StockReplenishmentPolicy → StockReplenishmentPolicy
written_policy request none = record {
  minimum_qty = pos (tenths request.minimum_qty);
  enabled = request.enabled;
  version = 1;
}
written_policy request (some policy) = record {
  minimum_qty = pos (tenths request.minimum_qty);
  enabled = request.enabled;
  version = policy.version + 1;
}

unfoldable pub check_policy :
    ReplenishmentPolicyWrite → Option StockReplenishmentPolicy → Tx Db (Unit {0})
check_policy request none = pure tt
check_policy request (some policy) = validate_version request.version policy.version

unfoldable pub set_policy : StockMaterial → ReplenishmentPolicyWrite → Tx Db StockMaterial
set_policy material request = do
  validate_quantity_precision request.minimum_qty
  check_policy request material.replenishment_policy
  let written = record material {
    replenishment_policy = some (written_policy request material.replenishment_policy);
  }
  modify (put_material written)
  pure written
