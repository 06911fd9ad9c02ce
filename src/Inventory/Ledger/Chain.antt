-- ===== src/Inventory/Ledger/Chain.antt =====
-- What `replay_lines` and `replay_operations` write: the chain of their own material, and nothing
-- that another material's chain, the order or the totals look at.
use materials_manager.Base.{
  ℕ, ℤ, pos, ◌+ℤ◌, ◌≡◌, ◌≢◌, refl, List, [], ◌∷◌, arith, Bool-cases, inl, inr, ap, sym, ◌∙◌, ◌==◌,
  ==→eq,
}
use materials_manager.Core.Enums.{OperationType}
use materials_manager.Model.Stock.{StockOperation, StockOperationLine}
use materials_manager.Inventory.Replay.{replay_line, replay_lines, replay_operations, precedes}
use materials_manager.Inventory.Ledger.Order.{Leads, IsOrdered}
use materials_manager.Inventory.Ledger.{
  advance_line, advance_lines, advance_operations, LineStep, LineChain, OperationChain, lines_total,
  ledger_total,
}

module _ (m : ℕ) (ty : OperationType) where
  replay_line-advance :
      (running : ℤ) (line : StockOperationLine)
      → (replay_line m ty running line).0 ≡ advance_line m ty running line
  unfolding replay_line
  replay_line-advance running line = ground arith

  replay_line-LineStep :
      (running : ℤ) (line : StockOperationLine)
      → LineStep m ty running (replay_line m ty running line).1
  unfolding replay_line
  replay_line-LineStep running line h = ground arith

  -- Any other chain reads the same of the line.
  replay_line-other :
      (n : ℕ) (s : ℤ) (running : ℤ) (line : StockOperationLine)
      → advance_line n ty s (replay_line m ty running line).1 ≡ advance_line n ty s line
  unfolding replay_line
  replay_line-other n s running line = ground arith

  replay_line-material :
      (running : ℤ) (line : StockOperationLine)
      → (replay_line m ty running line).1.stock_material_id ≡ line.stock_material_id
  unfolding replay_line
  replay_line-material running line = ground arith

  replay_line-keeps :
      (n : ℕ) (s : ℤ) (running : ℤ) (line : StockOperationLine)
      → n ≢ m
      → LineStep n ty s line
      → LineStep n ty s (replay_line m ty running line).1
  unfolding replay_line
  replay_line-keeps n s running line ne h k =
      let k' : line.stock_material_id ≡ n = sym (replay_line-material running line) ∙ k in
      elim (Bool-cases (line.stock_material_id == m)) [
        | inl e ↦ absurd (ne (sym k' ∙ ==→eq _ _ e))
        | inr e ↦ rw e (h k')
      ]

  replay_lines-advance :
      (running : ℤ) (lines : List StockOperationLine)
      → (replay_lines m ty running lines).0 ≡ advance_lines m ty running lines
  unfolding replay_lines
  replay_lines-advance running [] = refl
  replay_lines-advance running (line ∷ lines) =
      rw (replay_line-advance running line)
        (replay_lines-advance (advance_line m ty running line) lines)

  pub replay_lines-LineChain :
      (running : ℤ) (lines : List StockOperationLine)
      → LineChain m ty running (replay_lines m ty running lines).1
  unfolding replay_lines
  replay_lines-LineChain running [] = tt
  replay_lines-LineChain running (line ∷ lines) = (
    replay_line-LineStep running line,
    rw (replay_line-other m running running line, ← replay_line-advance running line)
        (replay_lines-LineChain (replay_line m ty running line).0 lines),
  )

  -- The quantities are as they were, for every material.
  pub replay_lines-other :
      (n : ℕ) (s : ℤ) (running : ℤ) (lines : List StockOperationLine)
      → advance_lines n ty s (replay_lines m ty running lines).1 ≡ advance_lines n ty s lines
  unfolding replay_lines
  replay_lines-other n s running [] = refl
  replay_lines-other n s running (line ∷ lines) =
      replay_lines-other n (advance_line n ty s (replay_line m ty running line).1)
        (replay_line m ty running line).0 lines
      ∙ ap (λ (t : ℤ). advance_lines n ty t lines) (replay_line-other n s running line)

  pub replay_lines-keeps :
      (n : ℕ) (s : ℤ) (running : ℤ) (lines : List StockOperationLine)
      → n ≢ m
      → LineChain n ty s lines
      → LineChain n ty s (replay_lines m ty running lines).1
  unfolding replay_lines
  replay_lines-keeps n s running [] ne h = tt
  replay_lines-keeps n s running (line ∷ lines) ne h = (
    replay_line-keeps n s running line ne h.0,
    rw (replay_line-other n s running line) (
        replay_lines-keeps n (advance_line n ty s line) (replay_line m ty running line).0 lines ne
          h.1),
  )

  pub replay_lines-total :
      (n : ℕ) (running : ℤ) (lines : List StockOperationLine)
      → lines_total n ty (replay_lines m ty running lines).1 ≡ lines_total n ty lines
  unfolding replay_lines
  replay_lines-total n running [] = refl
  replay_lines-total n running (line ∷ lines) = rw (replay_line-other n (pos 0) running line) (
      ap (λ (t : ℤ). advance_line n ty (pos 0) line +ℤ t)
        (replay_lines-total n (replay_line m ty running line).0 lines))

module _ (m : ℕ) where
  pub replay_operations-advance :
      (running : ℤ) (ops : List StockOperation)
      → (replay_operations m running ops).0 ≡ advance_operations m running ops
  unfolding replay_operations
  replay_operations-advance running [] = refl
  replay_operations-advance running (op ∷ ops) =
      rw (replay_lines-advance m op.operation_type running op.lines)
        (replay_operations-advance (advance_lines m op.operation_type running op.lines) ops)

  pub replay_operations-OperationChain :
      (running : ℤ) (ops : List StockOperation)
      → OperationChain m running (replay_operations m running ops).1
  unfolding replay_operations
  replay_operations-OperationChain running [] = tt
  replay_operations-OperationChain running (op ∷ ops) = (
    replay_lines-LineChain m op.operation_type running op.lines,
    rw
        (
          replay_lines-other m op.operation_type m running running op.lines,
          ← replay_lines-advance m op.operation_type running op.lines,
        )
        (replay_operations-OperationChain (replay_lines m op.operation_type running op.lines).0
          ops),
  )

  pub replay_operations-keeps :
      (n : ℕ) (s running : ℤ) (ops : List StockOperation)
      → n ≢ m
      → OperationChain n s ops
      → OperationChain n s (replay_operations m running ops).1
  unfolding replay_operations
  replay_operations-keeps n s running [] ne h = tt
  replay_operations-keeps n s running (op ∷ ops) ne h = (
    replay_lines-keeps m op.operation_type n s running op.lines ne h.0,
    rw (replay_lines-other m op.operation_type n s running op.lines) (
        replay_operations-keeps n (advance_lines n op.operation_type s op.lines)
          (replay_lines m op.operation_type running op.lines).0 ops ne h.1),
  )

  pub replay_operations-total :
      (n : ℕ) (running : ℤ) (ops : List StockOperation)
      → ledger_total n (replay_operations m running ops).1 ≡ ledger_total n ops
  unfolding replay_operations
  replay_operations-total n running [] = refl
  replay_operations-total n running (op ∷ ops) =
      rw (replay_lines-total m op.operation_type n running op.lines) (
        ap (λ (t : ℤ). lines_total n op.operation_type op.lines +ℤ t)
          (replay_operations-total n (replay_lines m op.operation_type running op.lines).0 ops))

  -- Neither the times nor the ids change, so what was in order still is.
  replay_operations-Leads :
      (running : ℤ) (op p : StockOperation) (ops : List StockOperation)
      → p.occurred_at ≡ op.occurred_at
      → p.id ≡ op.id
      → Leads op ops
      → Leads p (replay_operations m running ops).1
  unfolding replay_operations precedes
  replay_operations-Leads running op p [] t i h = tt
  replay_operations-Leads running op p (q ∷ ops) t i h = rw (t, i) h

  pub replay_operations-IsOrdered :
      (running : ℤ) (ops : List StockOperation)
      → IsOrdered ops
      → IsOrdered (replay_operations m running ops).1
  unfolding replay_operations
  replay_operations-IsOrdered running [] h = tt
  replay_operations-IsOrdered running (op ∷ ops) h = (
    replay_operations-Leads (replay_lines m op.operation_type running op.lines).0 op _ ops refl refl
        h.0,
    replay_operations-IsOrdered (replay_lines m op.operation_type running op.lines).0 ops h.1,
  )
