-- ===== src/Inventory/Create/Balance.antt =====
-- What `create_operation` does to the balances.
use materials_manager.Base.{
  ℕ, suc, ◌+◌, ℤ, pos, ◌+ℤ◌, ◌-ℤ◌, ◌≡◌, refl, Option, none, some, true, List, [], ◌∷◌, arith,
  int_laws, Bool-cases, Option-cases, inl, inr, ap, sym, ◌∙◌, ◌==◌, map, find, is_some,
  if◌then◌else◌, +ℤ_comm,
}
use materials_manager.Core.Enums.{OperationType}
use materials_manager.Core.Quantity.{tenths}
use materials_manager.Core.Tx.{ok}
use materials_manager.Core.Tx.Ensures.{
  Ensures, Keeps, Ensures-bind, Ensures-modify, Ensures-pure, Keeps-gets, Keeps-or_raise,
  Keeps-or_key_error, Keeps-for_each,
}
use materials_manager.Model.Stock.{StockMaterial, StockBalance, StockOperation, MiniProgramUser}
use materials_manager.Model.Database.{Db, Env}
use materials_manager.Schemas.Operations.{OperationLineWrite, OperationCreate}
use materials_manager.Webhook.{enqueue_event}
use materials_manager.Inventory.Rows.{find_by_request, log_event}
use materials_manager.Inventory.Replay.{
  moved, ledger_order, balance_of, set_balance, replay_material, replay_materials,
}
use materials_manager.Inventory.Create.{new_line, new_lines, announce, create_operation}
use materials_manager.Inventory.Create.Rule.{write_operation-rule, create_operation-rule}
use materials_manager.Inventory.Create.Consistent.{create_operation-IsConsistent}
use materials_manager.Inventory.Ledger.{advance_line, lines_total, ledger_total, IsConsistent}
use materials_manager.Inventory.Ledger.Chain.{replay_operations-total}
use materials_manager.Inventory.Ledger.Order.{ledger_total-ledger_order}
use materials_manager.Inventory.Ledger.Total.{moved-eq-add}
use materials_manager.Inventory.Ledger.Lowered.{lowered-ledger_total}

-- The tenths of a material that a request names.
abbrev pub requested : ℕ → List OperationLineWrite → ℕ
requested m [] = 0
requested m (line ∷ lines) =
    (if line.stock_material_id == m then tenths line.quantity else 0) + requested m lines

-- The total of a material's lines is `total`, and the material has a balance.
record HasTotal (m : ℕ) (total : ℤ) (db : Db) : Type 0 where
  ledger : ledger_total m db.stock_operations ≡ total
  balance : is_some (balance_of m db) ≡ true

balance_kept :
    (env : Env) (m n : ℕ) (r : ℤ) (bs : List StockBalance)
    → is_some (find (λ b. b.stock_material_id == n) (map (set_balance env m r) bs))
      ≡ is_some (find (λ b. b.stock_material_id == n) bs)
balance_kept env m n r [] = refl
balance_kept env m n r (c ∷ bs) = ground (arith, balance_kept env m n r bs)

replay_material-HasTotal :
    (env : Env) (n : ℕ) (total : ℤ) (m : ℕ) → Keeps (HasTotal n total) (replay_material env m)
unfolding replay_material
replay_material-HasTotal env n total m =
    Ensures-bind (λ _. HasTotal n total) (Keeps-gets _)
      λ balance.
        Ensures-bind (λ _. HasTotal n total) (Keeps-or_raise balance _)
          λ _. Ensures-modify _ λ db h. record {
            ledger =
                replay_operations-total m n (pos 0) (ledger_order db.stock_operations)
                ∙ ledger_total-ledger_order n db.stock_operations
                ∙ h.ledger;
            balance = balance_kept env m n _ db.stock_balances ∙ h.balance;
          }

replay_materials-HasTotal :
    (env : Env) (n : ℕ) (total : ℤ) (ms : List ℕ)
    → Keeps (HasTotal n total) (replay_materials env ms)
unfolding replay_materials
replay_materials-HasTotal env n total ms =
    Keeps-for_each (replay_material env) _ (replay_material-HasTotal env n total)

announce-HasTotal :
    (env : Env) (n : ℕ) (total : ℤ) (item : StockOperation) (original_id : Option ℕ)
    → Keeps (HasTotal n total) (announce env item original_id)
unfolding announce log_event enqueue_event
announce-HasTotal env n total item none =
    Ensures-bind (λ _. HasTotal n total)
      (Ensures-modify _ (λ db h. record { ledger = h.ledger; balance = h.balance }))
      (λ _. Ensures-modify _ (λ db h. record { ledger = h.ledger; balance = h.balance }))
announce-HasTotal env n total item (some id) =
    Ensures-modify _ (λ db h. record { ledger = h.ledger; balance = h.balance })

moved_add :
    (ty : OperationType) (a b : ℕ)
    → moved ty (pos 0) a +ℤ moved ty (pos 0) b ≡ moved ty (pos 0) (a + b)
unfolding moved
moved_add OperationType.inbound a b = omega int_laws
moved_add OperationType.outbound a b = omega int_laws

moved_none : (ty : OperationType) → moved ty (pos 0) 0 ≡ pos 0
unfolding moved
moved_none OperationType.inbound = omega int_laws
moved_none OperationType.outbound = omega int_laws

module _ (m : ℕ) (ty : OperationType) where
  new_line-total :
      (id : ℕ) (line : OperationLineWrite) (material : StockMaterial)
      → advance_line m ty (pos 0) (new_line id line material)
        ≡ moved ty (pos 0) (if line.stock_material_id == m then tenths line.quantity else 0)
  unfolding new_line
  new_line-total id line material = elim (Bool-cases (line.stock_material_id == m)) [
    | inl e ↦ rw e
    | inr e ↦ rw e (sym (moved_none ty))
  ]

  new_lines-total :
      (P : Db → Type 0) (materials : List StockMaterial) (id : ℕ) (lines : List OperationLineWrite)
      → Ensures P
          (new_lines materials id lines)
          (λ new db. P db × (lines_total m ty new ≡ moved ty (pos 0) (requested m lines)))
  unfolding new_lines
  new_lines-total P materials id [] = Ensures-pure [] (λ db p. (p, sym (moved_none ty)))
  new_lines-total P materials id (line ∷ lines) =
      Ensures-bind (λ _. P) (Keeps-or_key_error _)
        λ material.
          Ensures-bind
            (λ rest db. P db × (lines_total m ty rest ≡ moved ty (pos 0) (requested m lines)))
            (new_lines-total P materials (suc id) lines)
            λ rest. Ensures-pure (new_line id line material ∷ rest) λ db h.
              (h.0, rw (new_line-total id line material, h.1) (moved_add ty _ (requested m lines)))

module _ (env : Env) (request : OperationCreate) (ty : OperationType) (original_id : Option ℕ)
    (original : Option StockOperation) (user : Option MiniProgramUser) (m : ℕ) (total : ℤ) where
  abbrev IsNew : Db → Type 0
  IsNew db = HasTotal m total db × (find_by_request request.client_request_id db ≡ none)

  abbrev after_total : ℤ
  after_total = moved ty (pos 0) (requested m request.lines) +ℤ total

  create_operation-HasTotal :
      Ensures IsNew
        (create_operation env request ty original_id original user)
        (λ _. HasTotal m after_total)
  create_operation-HasTotal =
      create_operation-rule env request ty original_id original user IsNew
        (λ _. HasTotal m after_total) (λ db op h served. cc (h.1, served))
        λ materials.
          write_operation-rule env request ty original_id original user IsNew
            (λ _. HasTotal m after_total) (λ _. HasTotal m after_total)
            (λ _. HasTotal m after_total)
            (λ lines. lines_total m ty lines ≡ moved ty (pos 0) (requested m request.lines))
            materials (λ id. new_lines-total m ty IsNew materials id request.lines)
            (λ id lines db h new. record {
              ledger = rw (
                new,
                lowered-ledger_total m original request.lines db.stock_operations,
                h.0.ledger,
              );
              balance = h.0.balance;
            })
            (λ id. replay_materials-HasTotal env m after_total _) (λ id item db h found. h)
            (λ item. announce-HasTotal env m after_total item original_id)

create_operation-moves :
    (env : Env) (request : OperationCreate) (ty : OperationType) (original_id : Option ℕ)
    (original : Option StockOperation) (user : Option MiniProgramUser) (db : Db)
    (item : StockOperation) (db' : Db) (m : ℕ) (b : StockBalance)
    → IsConsistent db
    → find_by_request request.client_request_id db ≡ none
    → balance_of m db ≡ some b
    → create_operation env request ty original_id original user db ≡ ok (item, db')
    → (b' : StockBalance) × (balance_of m db' ≡ some b')
      × (b'.quantity ≡ moved ty b.quantity (requested m request.lines))
create_operation-moves env request ty original_id original user db item db' m b h new found e =
    let consistent =
      create_operation-IsConsistent env request ty original_id original user db item db' h e in
    let k =
      (create_operation-HasTotal env request ty original_id original user m
          (ledger_total m db.stock_operations)).at
        db (record { ledger = refl; balance = rw found }, new) item db' e in
    elim (Option-cases (balance_of m db')) [
      | inl missing ↦ absurd (false_of_missing missing k.balance)
      | inr (b', found') ↦ (
        b',
        found',
        (consistent m).total b' found'
            ∙ k.ledger
            ∙ +ℤ_comm _ _
            ∙ ap (λ (t : ℤ). t +ℤ moved ty (pos 0) (requested m request.lines))
                (sym ((h m).total b found))
            ∙ sym (moved-eq-add ty b.quantity (requested m request.lines)),
      )
    ]
  where
    false_of_missing : balance_of m db' ≡ none → is_some (balance_of m db') ≡ true → ⊥
    false_of_missing missing there = ground arith

-- What a balance is after an operation of this direction on this many tenths.
abbrev pub balance_after : OperationType → ℤ → ℕ → ℤ
balance_after OperationType.inbound before quantity = before +ℤ pos quantity
balance_after OperationType.outbound before quantity = before -ℤ pos quantity

moved-balance_after : (ty : OperationType) (a : ℤ) (q : ℕ) → moved ty a q ≡ balance_after ty a q
unfolding moved
moved-balance_after OperationType.inbound a q = refl
moved-balance_after OperationType.outbound a q = refl

-- If the ledger agrees with the balances and the request was not served before, a created operation
-- moves the balance of each material that has one by exactly what its lines name for the material:
-- up if it is inbound, down if it is outbound, and not at all if no line names it.
pub create_operation-balance :
    (env : Env) (request : OperationCreate) (ty : OperationType) (original_id : Option ℕ)
    (original : Option StockOperation) (user : Option MiniProgramUser) (db : Db)
    (item : StockOperation) (db' : Db) (m : ℕ) (b : StockBalance)
    → IsConsistent db
    → find_by_request request.client_request_id db ≡ none
    → balance_of m db ≡ some b
    → create_operation env request ty original_id original user db ≡ ok (item, db')
    → (b' : StockBalance) × (balance_of m db' ≡ some b')
      × (b'.quantity ≡ balance_after ty b.quantity (requested m request.lines))
create_operation-balance env request ty original_id original user db item db' m b h new found e =
    let (b', found', q) =
      create_operation-moves env request ty original_id original user db item db' m b h new found
        e in
    (b', found', q ∙ moved-balance_after ty b.quantity (requested m request.lines))
