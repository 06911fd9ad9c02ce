-- ===== src/Inventory/Ledger/Total.antt =====
-- The running quantity at the end of the ledger is the signed total of the material's lines.
use materials_manager.Base.{
  ℕ, ℤ, pos, ◌+ℤ◌, ◌≡◌, List, [], ◌∷◌, int_laws, ap, sym, ◌∙◌, +ℤ_assoc, +ℤ-zero, Bool-cases, inl,
  inr, ◌==◌,
}
use materials_manager.Core.Enums.{OperationType}
use materials_manager.Model.Stock.{StockOperation, StockOperationLine}
use materials_manager.Inventory.Replay.{moved}
use materials_manager.Inventory.Ledger.{
  advance_line, advance_lines, advance_operations, lines_total, ledger_total,
}

-- Moving a quantity is adding what it moves from zero.
pub moved-eq-add : (ty : OperationType) (r : ℤ) (q : ℕ) → moved ty r q ≡ r +ℤ moved ty (pos 0) q
unfolding moved
moved-eq-add OperationType.inbound r q = omega int_laws
moved-eq-add OperationType.outbound r q = omega int_laws

module _ (m : ℕ) where
  advance_line-eq-add :
      (ty : OperationType) (r : ℤ) (line : StockOperationLine)
      → advance_line m ty r line ≡ r +ℤ advance_line m ty (pos 0) line
  advance_line-eq-add ty r line = elim (Bool-cases (line.stock_material_id == m)) [
    | inl e ↦ rw e (moved-eq-add ty r line.quantity)
    | inr e ↦ rw e (sym (+ℤ-zero r))
  ]

  pub advance_lines-eq-add :
      (ty : OperationType) (r : ℤ) (lines : List StockOperationLine)
      → advance_lines m ty r lines ≡ r +ℤ lines_total m ty lines
  advance_lines-eq-add ty r [] = sym (+ℤ-zero r)
  advance_lines-eq-add ty r (line ∷ lines) =
      advance_lines-eq-add ty (advance_line m ty r line) lines
      ∙ ap (λ (t : ℤ). t +ℤ lines_total m ty lines) (advance_line-eq-add ty r line)
      ∙ +ℤ_assoc _ _ _

  pub advance_operations-eq-add :
      (r : ℤ) (ops : List StockOperation) → advance_operations m r ops ≡ r +ℤ ledger_total m ops
  advance_operations-eq-add r [] = sym (+ℤ-zero r)
  advance_operations-eq-add r (op ∷ ops) =
      advance_operations-eq-add (advance_lines m op.operation_type r op.lines) ops
      ∙ ap (λ (t : ℤ). t +ℤ ledger_total m ops) (advance_lines-eq-add op.operation_type r op.lines)
      ∙ +ℤ_assoc _ _ _
