-- ===== src/Inventory/Validate.antt =====
-- backend/app/services/inventory_service.py: the checks before an operation is written.
use materials_manager.Base.{
  ℕ, Text, Option, none, some, List, [], ◌∷◌, ◌++◌, not, ◌&&◌, ◌==◌, ltb, any, all, keep, length,
  contains, truthy?, if◌then◌else◌,
}
use materials_manager.Core.Errors.{ErrorCode, AppError, app_error}
use materials_manager.Core.Enums.{
  OperationType, SourceType, is_inbound, is_outbound, is_initialization, is_mini_program,
  is_reversal,
}
use materials_manager.Core.Quantity.{validate_quantity_precision}
use materials_manager.Core.Tx.{Tx, ◌>>=◌, ◌>>◌, pure, gets, raise_if, for_each}
use materials_manager.Model.Stock.{StockMaterial}
use materials_manager.Model.Database.{Db}
use materials_manager.Schemas.Operations.{OperationLineWrite, material_ids}

-- `AppError(code, message)`, with the status that the code has by default.
abbrev pub plain_error : ErrorCode → AppError
plain_error code = app_error code none

unfoldable pub validate_operation_semantics :
    OperationType → SourceType → Option Text → Option Text → Tx Db (Unit {0})
validate_operation_semantics operation_type source_type receiver_unit receiver_name = do
  raise_if (is_initialization source_type && not (is_inbound operation_type))
      (plain_error ErrorCode.invalid_source_type)
  raise_if (is_mini_program source_type && not (is_outbound operation_type))
      (plain_error ErrorCode.invalid_source_type)
  raise_if (is_inbound operation_type && truthy? receiver_name)
      (plain_error ErrorCode.invalid_receiver)
  raise_if (is_inbound operation_type && truthy? receiver_unit)
      (plain_error ErrorCode.invalid_receiver_unit)
  raise_if
      (is_outbound operation_type && (not (is_reversal source_type) && not (truthy? receiver_name)))
      (plain_error ErrorCode.receiver_required)

-- `sorted(set(ids))`
unfoldable pub insert_new : ℕ → List ℕ → List ℕ
insert_new n [] = n ∷ []
insert_new n (m ∷ ms) =
    if ltb n m then n ∷ m ∷ ms else if n == m then m ∷ ms else m ∷ insert_new n ms

unfoldable pub sorted_set : List ℕ → List ℕ
unfolding insert_new
sorted_set [] = []
sorted_set (n ∷ ns) = insert_new n (sorted_set ns)

-- The rows of the materials, which the callers use as a dictionary by id. The row locks order
-- concurrent requests and have no effect in one request.
unfoldable pub lock_and_validate_materials :
    List OperationLineWrite → List ℕ → Tx Db (List StockMaterial)
unfolding sorted_set
lock_and_validate_materials lines additional_material_ids = do
  let ids = sorted_set (material_ids lines ++ additional_material_ids)
  balances ← gets (λ db. keep (λ b. contains b.stock_material_id ids) db.stock_balances)
  raise_if (not (length balances == length ids)) (app_error ErrorCode.balance_missing (some 409))
  by_id ← gets (λ db. keep (λ m. contains m.id ids) db.stock_materials)
  raise_if (not (all (λ id. any (λ m. m.id == id) by_id) ids))
      (plain_error ErrorCode.resource_not_found)
  for_each lines (λ line. validate_quantity_precision line.quantity)
  pure by_id
