-- ===== src/Inventory/Update/Consistent.antt =====
-- `update_operation` and `reverse_operation` keep the ledger and the balances in agreement.
use materials_manager.Base.{
  ℕ, suc, ◌≡◌, refl, Option, none, some, false, List, [], ◌∷◌, ◌++◌, arith, Bool-cases, inl, inr,
  ap, sym, ◌∙◌, ◌==◌, ◌||◌, map, contains, any, All, ==→eq, if◌then◌else◌, ap,
}
use materials_manager.Core.Common.{validate_version}
use materials_manager.Core.Quantity.{validate_quantity_precision}
use materials_manager.Core.Tx.{ok}
use materials_manager.Core.Tx.Ensures.{
  Ensures, Keeps, Ensures-bind, Ensures-modify, Ensures-pure, Ensures-or_key_error, Keeps-gets,
  Keeps-pure, Keeps-bind, keeps_rules,
}
use materials_manager.Model.Stock.{StockMaterial, StockOperation, StockOperationLine}
use materials_manager.Model.Database.{Db, Env}
use materials_manager.Schemas.Operations.{OperationLineWrite, OperationUpdate}
use materials_manager.Inventory.Validate.{validate_operation_semantics, lock_and_validate_materials}
use materials_manager.Inventory.Rows.{material_of, line_of}
use materials_manager.Inventory.Create.{new_line}
use materials_manager.Inventory.Create.Rule.{IsAmong, material_of-among, get_operation-Keeps}
use materials_manager.Inventory.Create.Consistent.{not_touched, log_event-Keeps}
use materials_manager.Inventory.Update.{
  edit_line, updated_lines, edited_operation, replace_operation, put_operation, old_material_ids,
  write_update, check_update, update_operation,
}
use materials_manager.Inventory.Ledger.{IsConsistent}
use materials_manager.Inventory.Ledger.Relevant.{
  has_material, touches, relevant, IsReplayed-of_relevant,
}
use materials_manager.Inventory.Ledger.Replayed.{IsPending, replay_materials-IsConsistent}

-- The primary key: a row with the id of `item` is `item`.
abbrev pub IsRow : StockOperation → Db → Type 0
IsRow item db = All (λ op. op.id ≡ item.id → op ≡ item) db.stock_operations

line_of-material :
    (m : ℕ) (lines : List StockOperationLine) (line : StockOperationLine)
    → line_of m lines ≡ some line
    → line.stock_material_id ≡ m
line_of-material m [] line h = cc
line_of-material m (l ∷ lines) line h = ground (arith, line_of-material m lines line)

edited-material :
    (existing : List StockOperationLine) (id : ℕ) (line : OperationLineWrite)
    (material : StockMaterial) (o : Option StockOperationLine)
    → line_of line.stock_material_id existing ≡ o
    → (elim o as (λ _. StockOperationLine) [
      | some stored ↦ edit_line line material stored
      | none ↦ new_line id line material
    ]).stock_material_id
      ≡ line.stock_material_id
unfolding edit_line new_line
edited-material existing id line material none h = refl
edited-material existing id line material (some stored) h =
    line_of-material line.stock_material_id existing stored h

updated_lines-IsAmong :
    (P : Db → Type 0) (materials : List StockMaterial) (existing : List StockOperationLine) (id : ℕ)
    (lines : List OperationLineWrite)
    → Ensures P
        (updated_lines materials existing id lines)
        (λ new db. P db × All (IsAmong materials) new)
unfolding updated_lines
updated_lines-IsAmong P materials existing id [] = Ensures-pure [] (λ db p. (p, tt))
updated_lines-IsAmong P materials existing id (line ∷ lines) =
    Ensures-bind (λ m db. P db × (material_of line.stock_material_id materials ≡ some m))
      (Ensures-or_key_error _ (λ m db e p. (p, e)))
      λ m.
        Ensures-bind
          (λ rest db.
            (P db × (material_of line.stock_material_id materials ≡ some m))
            × All (IsAmong materials) rest)
          (updated_lines-IsAmong
            (λ db. P db × (material_of line.stock_material_id materials ≡ some m)) materials
            existing (suc id) lines)
          λ rest. Ensures-pure _ λ db h. (
            h.0.0,
            (
              rw (edited-material existing id line m _ refl)
                  (material_of-among line.stock_material_id materials m h.0.1),
              h.1,
            ),
          )

contains-append :
    (n : ℕ) (xs ys : List ℕ) → contains n (xs ++ ys) ≡ (contains n xs || contains n ys)
contains-append n [] ys = refl
contains-append n (x ∷ xs) ys = ground (arith, contains-append n xs ys)

old_not_touched :
    (n : ℕ) (lines : List StockOperationLine)
    → contains n (map (λ line. line.stock_material_id) lines) ≡ false
    → any (has_material n) lines ≡ false
old_not_touched n [] h = refl
old_not_touched n (line ∷ lines) h = ground (arith, old_not_touched n lines)

-- A row that has no line of the material, before and after, does not show in its ledger.
relevant-replace :
    (n : ℕ) (item new : StockOperation) (ops : List StockOperation)
    → All (λ op. op.id ≡ item.id → op ≡ item) ops
    → new.id ≡ item.id
    → touches n item ≡ false
    → touches n new ≡ false
    → relevant n ops ≡ relevant n (map (replace_operation new) ops)
relevant-replace n item new [] row i old t = refl
relevant-replace n item new (op ∷ ops) row i old t = elim (Bool-cases (op.id == new.id)) [
  | inl e ↦
      rw (e, t, row.0 (==→eq op.id new.id e ∙ i), old)
        (relevant-replace n item new ops row.1 i old t)
  | inr e ↦ rw e (
      ap (λ (l : List StockOperation). if touches n op then op ∷ l else l)
        (relevant-replace n item new ops row.1 i old t))
]

put_operation-IsPending :
    (item : StockOperation) (request : OperationUpdate) (lines : List StockOperationLine)
    (materials : List StockMaterial) (db : Db)
    → All (IsAmong materials) lines
    → IsConsistent db
    → IsRow item db
    → IsPending
        (old_material_ids item ++ map (λ m. m.id) materials)
        (put_operation (edited_operation request lines item) request.lines db)
put_operation-IsPending item request lines materials db among h row n out =
    let out' : (contains n (old_material_ids item) || contains n (map (λ m. m.id) materials))
        ≡ false =
      sym (contains-append n (old_material_ids item) _) ∙ out in
    IsReplayed-of_relevant n db
      (put_operation (edited_operation request lines item) request.lines db)
      (relevant-replace n item (edited_operation request lines item) db.stock_operations row refl
        (old_not_touched n item.lines (ground arith))
        (not_touched n materials lines among (ground arith)))
      refl (h n)

module _ (env : Env) (item : StockOperation) (request : OperationUpdate) where
  abbrev Ready : Db → Type 0
  Ready db = IsConsistent db × IsRow item db

  check_update-Keeps : (P : Db → Type 0) → Keeps P (check_update env item request)
  unfolding check_update validate_operation_semantics lock_and_validate_materials
      validate_quantity_precision validate_version
  check_update-Keeps P = search keeps_rules depth 12

  write_update-IsConsistent :
      (materials : List StockMaterial)
      → Ensures Ready (write_update env item request materials) (λ _. IsConsistent)
  unfolding write_update
  write_update-IsConsistent materials =
      Ensures-bind (λ _. Ready) (Keeps-gets _)
        λ line_id.
          Ensures-bind _ (updated_lines-IsAmong Ready materials item.lines line_id request.lines)
            λ lines.
              Ensures-bind (λ _. IsPending (old_material_ids item ++ map (λ m. m.id) materials))
                (Ensures-modify _
                  (λ db h. put_operation-IsPending item request lines materials db h.1 h.0.0 h.0.1))
                λ _.
                  Ensures-bind (λ _. IsConsistent) (replay_materials-IsConsistent env _)
                    λ _. Keeps-bind (get_operation-Keeps IsConsistent item.id) λ updated.
                      Keeps-bind (log_event-Keeps env item.id _ _ _) (λ _. Keeps-pure updated)

  update_operation-Ensures : Ensures Ready (update_operation env item request) (λ _. IsConsistent)
  unfolding update_operation
  update_operation-Ensures =
      Ensures-bind (λ _. Ready) (check_update-Keeps Ready) write_update-IsConsistent

-- If every quantity and balance agrees with the ledger, they still do after an operation is edited:
-- whatever the edit does to its time, direction, materials and quantities, and so to the quantities
-- of later operations. `item` is the row that the caller has read.
pub update_operation-IsConsistent :
    (env : Env) (item : StockOperation) (request : OperationUpdate) (db : Db)
    (updated : StockOperation) (db' : Db)
    → IsConsistent db
    → IsRow item db
    → update_operation env item request db ≡ ok (updated, db')
    → IsConsistent db'
update_operation-IsConsistent env item request db updated db' h row e =
    (update_operation-Ensures env item request).at db (h, row) updated db' e
