-- ===== src/Inventory/Ledger/Relevant.antt =====
-- A material's ledger depends only on the operations that have a line of it, so a change of the
-- others leaves it as it was.
use materials_manager.Base.{
  ℕ, ℤ, pos, ◌+ℤ◌, ◌≡◌, refl, Bool, false, List, [], ◌∷◌, arith, Bool-cases, inl, inr, ap, sym, ◌∙◌,
  ◌==◌, any, keep, zero-+ℤ, if◌then◌else◌,
}
use materials_manager.Core.Enums.{OperationType}
use materials_manager.Model.Stock.{StockOperation, StockOperationLine}
use materials_manager.Model.Database.{Db}
use materials_manager.Inventory.Replay.{precedes, insert_ordered, ledger_order}
use materials_manager.Inventory.Ledger.{
  advance_line, advance_lines, LineChain, OperationChain, lines_total, ledger_total, IsReplayed,
}
use materials_manager.Inventory.Ledger.Order.{
  Leads, IsOrdered, precedes_trans, insert-of_Leads, insert_later, ledger_order-IsOrdered,
}

abbrev pub has_material : ℕ → StockOperationLine → Bool
has_material m line = line.stock_material_id == m

abbrev pub touches : ℕ → StockOperation → Bool
touches m op = any (has_material m) op.lines

-- The rows of the query for a material, by operation.
abbrev pub relevant : ℕ → List StockOperation → List StockOperation
relevant m = keep (touches m)

module _ (m : ℕ) where
  idle_lines-advance :
      (ty : OperationType) (r : ℤ) (lines : List StockOperationLine)
      → any (has_material m) lines ≡ false
      → advance_lines m ty r lines ≡ r
  idle_lines-advance ty r [] h = refl
  idle_lines-advance ty r (line ∷ lines) h = ground (arith, idle_lines-advance ty r lines)

  idle_lines-total :
      (ty : OperationType) (lines : List StockOperationLine)
      → any (has_material m) lines ≡ false
      → lines_total m ty lines ≡ pos 0
  idle_lines-total ty [] h = refl
  idle_lines-total ty (line ∷ lines) h = elim (Bool-cases (has_material m line)) [
    | inl e ↦ ground arith
    | inr e ↦ rw e (zero-+ℤ _ ∙ idle_lines-total ty lines (ground arith))
  ]

  idle_lines-LineChain :
      (ty : OperationType) (r : ℤ) (lines : List StockOperationLine)
      → any (has_material m) lines ≡ false
      → LineChain m ty r lines
  idle_lines-LineChain ty r [] h = tt
  idle_lines-LineChain ty r (line ∷ lines) h = (
    λ e. absurd (ground arith),
    idle_lines-LineChain ty (advance_line m ty r line) lines (ground arith),
  )

  relevant-OperationChain :
      (r : ℤ) (ops : List StockOperation)
      → OperationChain m r ops
      → OperationChain m r (relevant m ops)
  relevant-OperationChain r [] h = tt
  relevant-OperationChain r (op ∷ ops) h = elim (Bool-cases (touches m op)) [
    | inl e ↦
        rw e (h.0, relevant-OperationChain (advance_lines m op.operation_type r op.lines) ops h.1)
    | inr e ↦ rw e (
        relevant-OperationChain r ops
          (rw (idle_lines-advance op.operation_type r op.lines e) at h.1))
  ]

  OperationChain-relevant :
      (r : ℤ) (ops : List StockOperation)
      → OperationChain m r (relevant m ops)
      → OperationChain m r ops
  OperationChain-relevant r [] h = tt
  OperationChain-relevant r (op ∷ ops) h = elim (Bool-cases (touches m op)) [
    | inl e ↦
        let h' : OperationChain m r (op ∷ relevant m ops) = rw e at h in
        (h'.0, OperationChain-relevant (advance_lines m op.operation_type r op.lines) ops h'.1)
    | inr e ↦
        let h' : OperationChain m r (relevant m ops) = rw e at h in
        (
          idle_lines-LineChain op.operation_type r op.lines e,
          rw (idle_lines-advance op.operation_type r op.lines e) (OperationChain-relevant r ops h'),
        )
  ]

  pub ledger_total-relevant :
      (ops : List StockOperation) → ledger_total m (relevant m ops) ≡ ledger_total m ops
  ledger_total-relevant [] = refl
  ledger_total-relevant (op ∷ ops) = elim (Bool-cases (touches m op)) [
    | inl e ↦
        rw e (
          ap (λ (t : ℤ). lines_total m op.operation_type op.lines +ℤ t) (ledger_total-relevant ops))
    | inr e ↦
        rw (e, idle_lines-total op.operation_type op.lines e)
          (ledger_total-relevant ops ∙ sym (zero-+ℤ _))
  ]

  Leads-relevant :
      (op : StockOperation) (ops : List StockOperation)
      → IsOrdered ops
      → Leads op ops
      → Leads op (relevant m ops)
  Leads-relevant op [] o h = tt
  Leads-relevant op (q ∷ ops) o h = elim (Bool-cases (touches m q)) [
    | inl e ↦ rw e h
    | inr e ↦ rw e (Leads-relevant op ops o.1 (through ops o.0))
  ]
    where
      through : (qs : List StockOperation) → Leads q qs → Leads op qs
      through [] l = tt
      through (p ∷ qs) l = precedes_trans op q p h l

  relevant_later :
      (op q : StockOperation) (ops : List StockOperation)
      → relevant m (insert_ordered op ops)
        ≡ (if touches m op then insert_ordered op (relevant m ops) else relevant m ops)
      → insert_ordered op (q ∷ relevant m ops) ≡ q ∷ insert_ordered op (relevant m ops)
      → relevant m (q ∷ insert_ordered op ops)
        ≡ (if touches m op then insert_ordered op (relevant m (q ∷ ops)) else relevant m (q ∷ ops))
  relevant_later op q ops ih later = ground (arith, ih, later)

  relevant-insert :
      (op : StockOperation) (ops : List StockOperation)
      → IsOrdered ops
      → relevant m (insert_ordered op ops)
        ≡ (if touches m op then insert_ordered op (relevant m ops) else relevant m ops)
  relevant-insert op [] o = rw (insert-of_Leads op [] tt)
  relevant-insert op (q ∷ ops) o = elim (Bool-cases (precedes op q)) [
    | inl e ↦ rw (insert-of_Leads op (q ∷ ops) e) (
        ap (λ (l : List StockOperation). if touches m op then l else relevant m (q ∷ ops))
          (sym (insert-of_Leads op (relevant m (q ∷ ops)) (Leads-relevant op (q ∷ ops) o e))))
    | inr e ↦ rw (insert_later op q ops e) (
        relevant_later op q ops (relevant-insert op ops o.1) (insert_later op q (relevant m ops) e))
  ]

  relevant-ledger_order :
      (ops : List StockOperation) → relevant m (ledger_order ops) ≡ ledger_order (relevant m ops)
  unfolding ledger_order
  relevant-ledger_order [] = refl
  relevant-ledger_order (op ∷ ops) =
      relevant-insert op (ledger_order ops) (ledger_order-IsOrdered ops)
      ∙ (elim (Bool-cases (touches m op)) [
        | inl e ↦ rw e (ap (insert_ordered op) (relevant-ledger_order ops))
        | inr e ↦ rw e (relevant-ledger_order ops)
      ])

  -- The ledgers of two databases agree for a material if its operations and the balances do.
  pub IsReplayed-of_relevant :
      (db db' : Db)
      → relevant m db.stock_operations ≡ relevant m db'.stock_operations
      → db.stock_balances ≡ db'.stock_balances
      → IsReplayed m db
      → IsReplayed m db'
  IsReplayed-of_relevant db db' same balances h = record {
    chain = OperationChain-relevant (pos 0) (ledger_order db'.stock_operations) (
        rw (relevant-ledger_order, ← same, ← relevant-ledger_order)
          (relevant-OperationChain (pos 0) (ledger_order db.stock_operations) h.chain));
    total = λ b found.
        h.total b (rw balances found)
        ∙ sym (ledger_total-relevant db.stock_operations)
        ∙ ap (ledger_total m) same
        ∙ ledger_total-relevant db'.stock_operations;
  }
