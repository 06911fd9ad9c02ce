-- ===== src/Inventory/Create/Rule.antt =====
-- The parts of `create_operation`: what only reads keeps every property, and one rule for the part
-- that writes.
use materials_manager.Base.{
  ℕ, suc, ◌≡◌, refl, Option, none, some, true, List, [], ◌∷◌, arith, ◌∙◌, map, contains, find, All,
}
use materials_manager.Core.Enums.{OperationType}
use materials_manager.Core.Tx.{Tx, pure}
use materials_manager.Core.Tx.Ensures.{
  Ensures, Keeps, Ensures-bind, Ensures-gets, Ensures-modify, Ensures-pure, Ensures-or_key_error,
  Ensures-or_raise, Keeps-gets, Keeps-for_each, keeps_rules,
}
use materials_manager.Model.Stock.{
  StockMaterial, StockOperation, StockOperationLine, MiniProgramUser,
}
use materials_manager.Model.Database.{Db, Env}
use materials_manager.Schemas.Operations.{OperationLineWrite, OperationCreate}
use materials_manager.Inventory.Rows.{get_operation, has_id, find_by_request, material_of}
use materials_manager.Core.Quantity.{validate_quantity_precision}
use materials_manager.Inventory.Validate.{validate_operation_semantics, lock_and_validate_materials}
use materials_manager.Inventory.Replay.{replay_materials}
use materials_manager.Inventory.Create.{
  check_reversal_line, new_line, new_lines, add_operation, new_operation, announce, write_operation,
  check_request, create_operation, unless_served,
}

pub check_reversal_line-Keeps :
    (P : Db → Type 0) (original : Option StockOperation) (line : OperationLineWrite)
    → Keeps P (check_reversal_line original line)
unfolding check_reversal_line
check_reversal_line-Keeps P none line = search keeps_rules
check_reversal_line-Keeps P (some original) line = search keeps_rules

-- Each new line is of one of the materials.
abbrev pub IsAmong : List StockMaterial → StockOperationLine → Type 0
IsAmong materials line = contains line.stock_material_id (map (λ m. m.id) materials) ≡ true

pub material_of-among :
    (id : ℕ) (materials : List StockMaterial) (m : StockMaterial)
    → material_of id materials ≡ some m
    → contains id (map (λ m. m.id) materials) ≡ true
material_of-among id [] m h = cc
material_of-among id (k ∷ materials) m h = ground (arith, material_of-among id materials m)

pub new_lines-IsAmong :
    (P : Db → Type 0) (materials : List StockMaterial) (id : ℕ) (lines : List OperationLineWrite)
    → Ensures P (new_lines materials id lines) (λ new db. P db × All (IsAmong materials) new)
unfolding new_lines
new_lines-IsAmong P materials id [] = Ensures-pure [] (λ db p. (p, tt))
new_lines-IsAmong P materials id (line ∷ lines) =
    Ensures-bind (λ m db. P db × (material_of line.stock_material_id materials ≡ some m))
      (Ensures-or_key_error _ (λ m db e p. (p, e)))
      λ m.
        Ensures-bind
          (λ rest db.
            (P db × (material_of line.stock_material_id materials ≡ some m))
            × All (IsAmong materials) rest)
          (new_lines-IsAmong (λ db. P db × (material_of line.stock_material_id materials ≡ some m))
            materials (suc id) lines)
          λ rest.
            Ensures-pure (new_line id line m ∷ rest)
              λ db h. (h.0.0, (material_of-among line.stock_material_id materials m h.0.1, h.1))

pub get_operation-Keeps : (P : Db → Type 0) (id : ℕ) → Keeps P (get_operation id)
unfolding get_operation
get_operation-Keeps P id = search keeps_rules

get_operation-Ensures :
    (P : Db → Type 0) (F : StockOperation → Db → Type 0) (id : ℕ)
    → ((item : StockOperation) (db : Db)
        → P db
        → find (has_id id) db.stock_operations ≡ some item
        → F item db)
    → Ensures P (get_operation id) F
unfolding get_operation
get_operation-Ensures P F id h =
    Ensures-bind (λ found db. P db × (find (has_id id) db.stock_operations ≡ found))
      (Ensures-gets _ (λ db p. (p, refl)))
      (λ found. Ensures-or_raise found _ (λ item db e p. h item db p.0 (p.1 ∙ e)))

module _ (env : Env) (request : OperationCreate) (ty : OperationType) (original_id : Option ℕ)
    (original : Option StockOperation) (user : Option MiniProgramUser) where
  abbrev pub written : ℕ → List StockOperationLine → Db → Db
  written id lines =
      add_operation (new_operation id ty request original_id user lines) original request.lines

  -- `P` holds before, `Q` once the rows are written, `R` after the replay, and `F` of what the
  -- session then reads back under the new id.
  pub write_operation-rule :
      (P : Db → Type 0) (Q R : ℕ → Db → Type 0) (F : StockOperation → Db → Type 0)
      (L : List StockOperationLine → Type 0) (materials : List StockMaterial)
      → ((id : ℕ) → Ensures P (new_lines materials id request.lines) (λ new db. P db × L new))
      → ((id : ℕ) (lines : List StockOperationLine) (db : Db)
          → P db
          → L lines
          → Q id (written id lines db))
      → ((id : ℕ) → Ensures (Q id) (replay_materials env (map (λ m. m.id) materials)) (λ _. R id))
      → ((id : ℕ) (item : StockOperation) (db : Db)
          → R id db
          → find (has_id id) db.stock_operations ≡ some item
          → F item db)
      → ((item : StockOperation) → Keeps (F item) (announce env item original_id))
      → Ensures P (write_operation env request ty original_id original user materials) F
  unfolding write_operation
  write_operation-rule P Q R F L materials lines_ok add_ok replay_ok read_ok announce_ok =
      Ensures-bind (λ _. P) (Keeps-gets _)
        λ id.
          Ensures-bind (λ _. P) (Keeps-gets _)
            λ line_id.
              Ensures-bind (λ _. P) (Keeps-for_each _ _ (check_reversal_line-Keeps P original))
                λ _. Ensures-bind _ (lines_ok line_id) λ lines.
                  Ensures-bind (λ _. Q id) (Ensures-modify _ (λ db h. add_ok id lines db h.0 h.1))
                    λ _.
                      Ensures-bind (λ _. R id) (replay_ok id)
                        λ _. Ensures-bind F (get_operation-Ensures (R id) F id (read_ok id)) λ item.
                          Ensures-bind (λ _. F item) (announce_ok item)
                            (λ _. Ensures-pure item (λ db h. h))

  check_request-Keeps :
      (P : Db → Type 0) → Keeps P (check_request env request ty original_id original user)
  unfolding check_request validate_operation_semantics lock_and_validate_materials
      validate_quantity_precision
  check_request-Keeps P = search keeps_rules depth 12

  served-Ensures :
      (P : Db → Type 0) (R : StockOperation → Db → Type 0) (action : Tx Db StockOperation)
      (existing : Option StockOperation)
      → ((db : Db) (op : StockOperation)
          → P db
          → find_by_request request.client_request_id db ≡ some op
          → R op db)
      → Ensures P action R
      → Ensures
          (λ db. P db × (find_by_request request.client_request_id db ≡ existing))
          (elim existing as (λ _. Tx Db StockOperation) [ some op ↦ pure op | none ↦ action ])
          R
  served-Ensures P R action none served h = record { at = λ db p. h.at db p.0 }
  served-Ensures P R action (some op) served h = Ensures-pure op (λ db p. served db op p.0 p.1)

  unless_served-Ensures :
      (P : Db → Type 0) (R : StockOperation → Db → Type 0) (action : Tx Db StockOperation)
      → ((db : Db) (op : StockOperation)
          → P db
          → find_by_request request.client_request_id db ≡ some op
          → R op db)
      → Ensures P action R
      → Ensures P (unless_served env request ty original_id original user action) R
  unless_served-Ensures P R action served h =
      Ensures-bind (λ existing db. P db × (find_by_request request.client_request_id db ≡ existing))
        (Ensures-gets _ (λ db p. (p, refl)))
        (λ existing. served-Ensures P R action existing served h)

  -- A request that was served before needs `R` of the database as it is; any other goes through the
  -- checks, which write nothing, to the part that writes.
  pub create_operation-rule :
      (P : Db → Type 0) (R : StockOperation → Db → Type 0)
      → ((db : Db) (op : StockOperation)
          → P db
          → find_by_request request.client_request_id db ≡ some op
          → R op db)
      → ((materials : List StockMaterial)
          → Ensures P (write_operation env request ty original_id original user materials) R)
      → Ensures P (create_operation env request ty original_id original user) R
  unfolding create_operation
  create_operation-rule P R served write = unless_served-Ensures P R _ served (
      Ensures-bind (λ _. P) (check_request-Keeps P)
        (λ materials. unless_served-Ensures P R _ served (write materials)))
