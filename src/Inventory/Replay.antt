-- ===== src/Inventory/Replay.antt =====
-- `replay_materials` of backend/app/services/inventory_service.py: the quantities before and after
-- each line of a material, and its balance, computed again from the first operation on.
use materials_manager.Base.{
  ℕ, ◌+◌, ℤ, pos, ◌+ℤ◌, ◌-ℤ◌, Option, some, Bool, List, [], ◌∷◌, ◌||◌, ◌&&◌, ◌==◌, ltb, leb, find,
  map, if◌then◌else◌,
}
use materials_manager.Core.Errors.{ErrorCode, app_error}
use materials_manager.Core.Enums.{OperationType}
use materials_manager.Core.Tx.{Tx, ◌>>=◌, ◌>>◌, gets, modify, or_raise, for_each}
use materials_manager.Model.Stock.{StockBalance, StockOperation, StockOperationLine}
use materials_manager.Model.Database.{Db, Env}
use materials_manager.Inventory.Validate.{sorted_set}

-- The order of the ledger, `ORDER BY occurred_at, operation id`. The third key of the query is the
-- line's id: it decides nothing, since an operation has one line at most for a material (the unique
-- key over `operation_id` and `stock_material_id`).
unfoldable pub precedes : StockOperation → StockOperation → Bool
precedes a b = ltb a.occurred_at b.occurred_at || (a.occurred_at == b.occurred_at && leb a.id b.id)

unfoldable pub insert_ordered : StockOperation → List StockOperation → List StockOperation
insert_ordered op [] = op ∷ []
insert_ordered op (p ∷ ops) = if precedes op p then op ∷ p ∷ ops else p ∷ insert_ordered op ops

unfoldable pub ledger_order : List StockOperation → List StockOperation
ledger_order [] = []
ledger_order (op ∷ ops) = insert_ordered op (ledger_order ops)

-- `running + quantity` for an inbound operation, `running - quantity` for an outbound one.
unfoldable pub moved : OperationType → ℤ → ℕ → ℤ
moved OperationType.inbound running quantity = running +ℤ pos quantity
moved OperationType.outbound running quantity = running -ℤ pos quantity

module _ (material_id : ℕ) where
  -- One row of the loop: the new running quantity, and the line with its two quantities written.
  unfoldable pub replay_line : OperationType → ℤ → StockOperationLine → ℤ × StockOperationLine
  replay_line ty running line =
      if line.stock_material_id == material_id
      then (let after = moved ty running line.quantity in
          (after, record line { before_qty = running; after_qty = after }))
      else (running, line)

  unfoldable pub replay_lines :
      OperationType → ℤ → List StockOperationLine → ℤ × List StockOperationLine
  replay_lines ty running [] = (running, [])
  replay_lines ty running (line ∷ lines) =
      let (after, line') = replay_line ty running line in
      let (final, rest) = replay_lines ty after lines in (final, line' ∷ rest)

  unfoldable pub replay_operations : ℤ → List StockOperation → ℤ × List StockOperation
  replay_operations running [] = (running, [])
  replay_operations running (op ∷ ops) =
      let (after, lines) = replay_lines op.operation_type running op.lines in
      let (final, rest) = replay_operations after ops in (final, record op { lines = lines } ∷ rest)

abbrev pub balance_of : ℕ → Db → Option StockBalance
balance_of material_id db = find (λ b. b.stock_material_id == material_id) db.stock_balances

abbrev pub set_balance : Env → ℕ → ℤ → StockBalance → StockBalance
set_balance env material_id running b =
    if b.stock_material_id == material_id
    then record b { quantity = running; version = b.version + 1; updated_at = env.now }
    else b

-- The body of the loop. The rows come back in the order of the query.
unfoldable pub replay_material : Env → ℕ → Tx Db (Unit {0})
replay_material env material_id = do
  balance ← gets (balance_of material_id)
  or_raise balance (app_error ErrorCode.balance_missing (some 409))
  modify λ db.
      let (running, operations) =
        replay_operations material_id (pos 0) (ledger_order db.stock_operations) in
      record db {
        stock_operations = operations;
        stock_balances = map (set_balance env material_id running) db.stock_balances;
      }

unfoldable pub replay_materials : Env → List ℕ → Tx Db (Unit {0})
replay_materials env material_ids = for_each (sorted_set material_ids) (replay_material env)
