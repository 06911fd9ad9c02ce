-- ===== src/Inventory/Ledger/Lowered.antt =====
-- Lowering what is left of an original's lines changes nothing that the ledger looks at.
use materials_manager.Base.{
  ℕ, ℤ, pos, ◌+ℤ◌, ◌≡◌, refl, Option, none, some, List, [], ◌∷◌, arith, Bool-cases, inl, inr, ap,
  sym, ◌∙◌, ◌==◌, map,
}
use materials_manager.Core.Enums.{OperationType}
use materials_manager.Model.Stock.{StockOperation, StockOperationLine}
use materials_manager.Model.Database.{Db}
use materials_manager.Schemas.Operations.{OperationLineWrite}
use materials_manager.Inventory.Replay.{precedes, insert_ordered, ledger_order}
use materials_manager.Inventory.Create.{take_remaining, take_all, lower_original}
use materials_manager.Inventory.Ledger.{
  advance_line, advance_lines, LineChain, OperationChain, lines_total, ledger_total, IsReplayed,
}

-- The fields of a line that the ledger looks at are the same.
pub record SameLine (a b : StockOperationLine) : Type 0 where
  pub material : a.stock_material_id ≡ b.stock_material_id
  pub quantity : a.quantity ≡ b.quantity
  pub before : a.before_qty ≡ b.before_qty
  pub after : a.after_qty ≡ b.after_qty

take_all-SameLine :
    (lines : List OperationLineWrite) (stored : StockOperationLine)
    → SameLine (take_all lines stored) stored
take_all-SameLine [] stored = record {
  material = refl;
  quantity = refl;
  before = refl;
  after = refl;
}
take_all-SameLine (line ∷ lines) stored =
    let h = take_all-SameLine lines (take_remaining line stored) in
    record {
      material = h.material ∙ ground arith;
      quantity = h.quantity ∙ ground arith;
      before = h.before ∙ ground arith;
      after = h.after ∙ ground arith;
    }

module _ (m : ℕ) (ls : List OperationLineWrite) where
  lowered_line-advance :
      (ty : OperationType) (r : ℤ) (line : StockOperationLine)
      → advance_line m ty r (take_all ls line) ≡ advance_line m ty r line
  lowered_line-advance ty r line = let h = take_all-SameLine ls line in rw (h.material, h.quantity)

  lowered_lines-advance :
      (ty : OperationType) (r : ℤ) (lines : List StockOperationLine)
      → advance_lines m ty r (map (take_all ls) lines) ≡ advance_lines m ty r lines
  lowered_lines-advance ty r [] = refl
  lowered_lines-advance ty r (line ∷ lines) =
      lowered_lines-advance ty (advance_line m ty r (take_all ls line)) lines
      ∙ ap (λ (t : ℤ). advance_lines m ty t lines) (lowered_line-advance ty r line)

  lowered_lines-total :
      (ty : OperationType) (lines : List StockOperationLine)
      → lines_total m ty (map (take_all ls) lines) ≡ lines_total m ty lines
  lowered_lines-total ty [] = refl
  lowered_lines-total ty (line ∷ lines) =
      rw (lowered_line-advance ty (pos 0) line)
        (ap (λ (t : ℤ). advance_line m ty (pos 0) line +ℤ t) (lowered_lines-total ty lines))

  lowered_lines-LineChain :
      (ty : OperationType) (r : ℤ) (lines : List StockOperationLine)
      → LineChain m ty r lines
      → LineChain m ty r (map (take_all ls) lines)
  lowered_lines-LineChain ty r [] h = tt
  lowered_lines-LineChain ty r (line ∷ lines) h =
      let s = take_all-SameLine ls line in
      (
        λ e. let k = h.0 (sym s.material ∙ e) in rw s.quantity (s.before ∙ k.0, s.after ∙ k.1),
        rw (lowered_line-advance ty r line)
            (lowered_lines-LineChain ty (advance_line m ty r line) lines h.1),
      )

-- A material's ledger reads the same of two operations.
pub record SameOperation (m : ℕ) (a b : StockOperation) : Type 0 where
  pub id : a.id ≡ b.id
  pub time : a.occurred_at ≡ b.occurred_at
  pub advance :
      (r : ℤ)
      → advance_lines m a.operation_type r a.lines ≡ advance_lines m b.operation_type r b.lines
  pub total : lines_total m a.operation_type a.lines ≡ lines_total m b.operation_type b.lines
  pub chain :
      (r : ℤ) → LineChain m b.operation_type r b.lines → LineChain m a.operation_type r a.lines

pub SameOperation-refl : (m : ℕ) (op : StockOperation) → SameOperation m op op
SameOperation-refl m op = record {
  id = refl;
  time = refl;
  advance = λ r. refl;
  total = refl;
  chain = λ r h. h;
}

lowered-SameOperation :
    (m : ℕ) (original : Option StockOperation) (ls : List OperationLineWrite) (op : StockOperation)
    → SameOperation m (lower_original original ls op) op
lowered-SameOperation m none ls op = SameOperation-refl m op
lowered-SameOperation m (some original) ls op = elim (Bool-cases (op.id == original.id)) [
  | inl e ↦ rw e (record {
    id = refl;
    time = refl;
    advance = λ r. lowered_lines-advance m ls op.operation_type r op.lines;
    total = lowered_lines-total m ls op.operation_type op.lines;
    chain = λ r h. lowered_lines-LineChain m ls op.operation_type r op.lines h;
  })
  | inr e ↦ rw e (SameOperation-refl m op)
]

module _ (m : ℕ) (f : StockOperation → StockOperation)
    (same : (op : StockOperation) → SameOperation m (f op) op) where
  map-insert_ordered :
      (op : StockOperation) (ops : List StockOperation)
      → insert_ordered (f op) (map f ops) ≡ map f (insert_ordered op ops)
  unfolding insert_ordered precedes
  map-insert_ordered op [] = refl
  map-insert_ordered op (q ∷ ops) =
      ground
        (arith, map-insert_ordered op ops, (same op).id, (same op).time, (same q).id, (same q).time)

  map-ledger_order :
      (ops : List StockOperation) → ledger_order (map f ops) ≡ map f (ledger_order ops)
  unfolding ledger_order
  map-ledger_order [] = refl
  map-ledger_order (op ∷ ops) =
      ap (insert_ordered (f op)) (map-ledger_order ops) ∙ map-insert_ordered op (ledger_order ops)

  map-OperationChain :
      (r : ℤ) (ops : List StockOperation) → OperationChain m r ops → OperationChain m r (map f ops)
  map-OperationChain r [] h = tt
  map-OperationChain r (op ∷ ops) h = (
    (same op).chain r h.0,
    rw ((same op).advance r)
        (map-OperationChain (advance_lines m op.operation_type r op.lines) ops h.1),
  )

  map-ledger_total : (ops : List StockOperation) → ledger_total m (map f ops) ≡ ledger_total m ops
  map-ledger_total [] = refl
  map-ledger_total (op ∷ ops) =
      rw (same op).total
        (ap (λ (t : ℤ). lines_total m op.operation_type op.lines +ℤ t) (map-ledger_total ops))

  pub map-IsReplayed :
      (db : Db)
      → IsReplayed m db
      → IsReplayed m (record db { stock_operations = map f db.stock_operations })
  map-IsReplayed db h = record {
    chain =
        rw map-ledger_order (map-OperationChain (pos 0) (ledger_order db.stock_operations) h.chain);
    total = λ b found. h.total b found ∙ sym (map-ledger_total db.stock_operations);
  }

-- What `add_operation` does to the operations that are there.
pub lowered-IsReplayed :
    (m : ℕ) (original : Option StockOperation) (ls : List OperationLineWrite) (db : Db)
    → IsReplayed m db
    → IsReplayed m
        (record db { stock_operations = map (lower_original original ls) db.stock_operations })
lowered-IsReplayed m original ls =
    map-IsReplayed m (lower_original original ls) (lowered-SameOperation m original ls)

pub lowered-ledger_total :
    (m : ℕ) (original : Option StockOperation) (ls : List OperationLineWrite)
    (ops : List StockOperation)
    → ledger_total m (map (lower_original original ls) ops) ≡ ledger_total m ops
lowered-ledger_total m original ls =
    map-ledger_total m (lower_original original ls) (lowered-SameOperation m original ls)
