-- ===== src/Inventory/Ledger.antt =====
-- What the stock ledger promises, said without `replay_materials`: the quantities of the lines form a
-- chain from zero in ledger order, and a balance is the signed total of its material's lines.
pub mod Chain
pub mod Order
pub mod Total
pub mod Relevant
pub mod Replayed
pub mod Lowered
use materials_manager.Base.{ℕ, ℤ, pos, ◌+ℤ◌, ◌≡◌, some, List, [], ◌∷◌, ◌==◌, if◌then◌else◌}
use materials_manager.Core.Enums.{OperationType}
use materials_manager.Model.Stock.{StockBalance, StockOperation, StockOperationLine}
use materials_manager.Model.Database.{Db}
use materials_manager.Inventory.Replay.{moved, ledger_order, balance_of}

module _ (m : ℕ) where
  -- The running quantity after a line, some lines, some operations.
  abbrev pub advance_line : OperationType → ℤ → StockOperationLine → ℤ
  advance_line ty running line =
      if line.stock_material_id == m then moved ty running line.quantity else running

  abbrev pub advance_lines : OperationType → ℤ → List StockOperationLine → ℤ
  advance_lines ty running [] = running
  advance_lines ty running (line ∷ lines) = advance_lines ty (advance_line ty running line) lines

  abbrev pub advance_operations : ℤ → List StockOperation → ℤ
  advance_operations running [] = running
  advance_operations running (op ∷ ops) =
      advance_operations (advance_lines op.operation_type running op.lines) ops

  -- A line of the material shows the running quantity, and the quantity that it leaves.
  abbrev pub LineStep : OperationType → ℤ → StockOperationLine → Type 0
  LineStep ty running line =
      line.stock_material_id ≡ m
      → (line.before_qty ≡ running) × (line.after_qty ≡ moved ty running line.quantity)

  abbrev pub LineChain : OperationType → ℤ → List StockOperationLine → Type 0
  LineChain ty running [] = Unit
  LineChain ty running (line ∷ lines) =
      LineStep ty running line × LineChain ty (advance_line ty running line) lines

  abbrev pub OperationChain : ℤ → List StockOperation → Type 0
  OperationChain running [] = Unit
  OperationChain running (op ∷ ops) =
      LineChain op.operation_type running op.lines
      × OperationChain (advance_lines op.operation_type running op.lines) ops

  -- What a material's lines add up to, inbound counted up and outbound down.
  abbrev pub lines_total : OperationType → List StockOperationLine → ℤ
  lines_total ty [] = pos 0
  lines_total ty (line ∷ lines) = advance_line ty (pos 0) line +ℤ lines_total ty lines

  abbrev pub ledger_total : List StockOperation → ℤ
  ledger_total [] = pos 0
  ledger_total (op ∷ ops) = lines_total op.operation_type op.lines +ℤ ledger_total ops

  -- The ledger and the balance of one material agree.
  pub record IsReplayed (db : Db) : Type 0 where
    pub chain : OperationChain (pos 0) (ledger_order db.stock_operations)
    pub total :
        (b : StockBalance)
        → balance_of m db ≡ some b
        → b.quantity ≡ ledger_total db.stock_operations

-- The invariant of the stock tables.
abbrev pub IsConsistent : Db → Type 0
IsConsistent db = (m : ℕ) → IsReplayed m db
