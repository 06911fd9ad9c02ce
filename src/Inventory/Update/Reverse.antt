-- ===== src/Inventory/Update/Reverse.antt =====
-- What `reverse_operation` does to the balances, and when it takes place.
use materials_manager.Base.{ℕ, ℤ, ◌≡◌, sym, ap, ◌∙◌, Option, none, some, List, int_laws}
use materials_manager.Core.Enums.{OperationType}
use materials_manager.Core.Tx.{Tx, ok, ◌>>=◌, gets, pure}
use materials_manager.Model.Stock.{StockBalance, StockOperation, MiniProgramUser}
use materials_manager.Model.Database.{Db, Env}
use materials_manager.Schemas.Operations.{OperationCreate, ReverseOperationRequest}
use materials_manager.Inventory.Replay.{balance_of}
use materials_manager.Inventory.Rows.{find_by_request}
use materials_manager.Inventory.Ledger.{IsConsistent}
use materials_manager.Inventory.Create.{create_operation}
use materials_manager.Inventory.Create.Balance.{requested, balance_after, create_operation-balance}
use materials_manager.Inventory.Create.Consistent.{create_operation-IsConsistent}
use materials_manager.Inventory.Update.{opposite, reversal_request, reverse_operation}

balance_after-opposite :
    (ty : OperationType) (a : ℤ) (q : ℕ) → balance_after (opposite ty) (balance_after ty a q) q ≡ a
balance_after-opposite OperationType.inbound a q = omega int_laws
balance_after-opposite OperationType.outbound a q = omega int_laws

-- A reversal with a new request id is the creation of an operation of the other direction.
reverse_operation-creates :
    (env : Env) (original : StockOperation) (reversal : ReverseOperationRequest) (db : Db)
    → find_by_request reversal.client_request_id db ≡ none
    → reverse_operation env original reversal db
      ≡ create_operation env
          (reversal_request env original reversal)
          (opposite original.operation_type)
          (some original.id)
          (some original)
          none
          db
unfolding reverse_operation ◌>>=◌ gets
reverse_operation-creates env original reversal db new =
    ap
      (λ (o : Option StockOperation).
        (elim o as (λ _. Tx Db StockOperation) [
          | some op ↦ pure op
          | none ↦
              create_operation env (reversal_request env original reversal)
                (opposite original.operation_type) (some original.id) (some original) none
        ])
          db)
      new

-- If the ledger agreed with the balances before, and an operation was created by a request with a new id
-- and then reversed line by line in full, by another request with a new id, each balance is what it
-- was before both.
pub reverse_operation_undoes :
    (env env' : Env) (request : OperationCreate) (ty : OperationType)
    (user : Option MiniProgramUser) (db : Db) (item : StockOperation) (db1 : Db)
    (original : StockOperation) (reversal : ReverseOperationRequest) (reversed : StockOperation)
    (db2 : Db) (m : ℕ) (b : StockBalance)
    → IsConsistent db
    → balance_of m db ≡ some b
    → find_by_request request.client_request_id db ≡ none
    → create_operation env request ty none none user db ≡ ok (item, db1)
    → original.operation_type ≡ ty
    → reversal.lines ≡ request.lines
    → find_by_request reversal.client_request_id db1 ≡ none
    → reverse_operation env' original reversal db1 ≡ ok (reversed, db2)
    → (after : StockBalance) × (balance_of m db2 ≡ some after) × (after.quantity ≡ b.quantity)
reverse_operation_undoes env env' request ty user db item db1 original reversal reversed db2 m b h
      found new e same_type same_lines new' e' =
    let (b1, found1, q1) =
      create_operation-balance env request ty none none user db item db1 m b h new found e in
    let h1 = create_operation-IsConsistent env request ty none none user db item db1 h e in
    let run = sym (reverse_operation-creates env' original reversal db1 new') ∙ e' in
    let (b2, found2, q2) =
      create_operation-balance env' (reversal_request env' original reversal)
        (opposite original.operation_type) (some original.id) (some original) none db1 reversed db2
        m b1 h1 new' found1 run in
    (
      b2,
      found2,
      q2
          ∙ ap
              (λ (t : OperationType).
                balance_after (opposite t) b1.quantity (requested m reversal.lines))
              same_type
          ∙ ap (λ (ls : List _). balance_after (opposite ty) b1.quantity (requested m ls))
              same_lines
          ∙ ap (λ (a : ℤ). balance_after (opposite ty) a (requested m request.lines)) q1
          ∙ balance_after-opposite ty b.quantity (requested m request.lines),
    )
