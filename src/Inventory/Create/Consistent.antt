-- ===== src/Inventory/Create/Consistent.antt =====
-- `create_operation` keeps the ledger and the balances in agreement.
use materials_manager.Base.{
  ℕ, ◌≡◌, refl, Option, none, some, true, false, List, [], ◌∷◌, arith, Bool-cases, inl, inr, map,
  contains, any, Text, All, ==→eq,
}
use materials_manager.Core.Enums.{OperationType, WebhookEventType}
use materials_manager.Core.Tx.{ok}
use materials_manager.Core.Tx.Ensures.{Keeps, Ensures-modify, keeps_rules}
use materials_manager.Model.Stock.{
  StockMaterial, StockOperation, StockOperationLine, MiniProgramUser, OperationSnapshot,
}
use materials_manager.Model.Webhook.{EventData}
use materials_manager.Model.Database.{Db, Env}
use materials_manager.Schemas.Operations.{OperationLineWrite, OperationCreate}
use materials_manager.Webhook.{enqueue_event}
use materials_manager.Inventory.Rows.{log_event}
use materials_manager.Inventory.Create.Rule.{
  IsAmong, new_lines-IsAmong, write_operation-rule, create_operation-rule,
}
use materials_manager.Inventory.Create.{
  add_operation, new_operation, announce, create_operation, lower_original,
}
use materials_manager.Inventory.Ledger.{IsConsistent}
use materials_manager.Inventory.Ledger.Relevant.{has_material, IsReplayed-of_relevant}
use materials_manager.Inventory.Ledger.Replayed.{IsPending, replay_materials-IsConsistent}
use materials_manager.Inventory.Ledger.Lowered.{lowered-IsReplayed}

pub not_touched :
    (n : ℕ) (materials : List StockMaterial) (lines : List StockOperationLine)
    → All (IsAmong materials) lines
    → contains n (map (λ m. m.id) materials) ≡ false
    → any (has_material n) lines ≡ false
not_touched n materials [] among h = refl
not_touched n materials (line ∷ lines) among h = elim (Bool-cases (has_material n line)) [
  | inl e ↦
      let among' : contains n (map (λ m. m.id) materials) ≡ true =
        rw (==→eq line.stock_material_id n e) at among.0 in
      absurd (ground arith)
  | inr e ↦ rw e (not_touched n materials lines among.1 h)
]

add_operation-IsPending :
    (item : StockOperation) (original : Option StockOperation) (ls : List OperationLineWrite)
    (materials : List StockMaterial) (db : Db)
    → All (IsAmong materials) item.lines
    → IsConsistent db
    → IsPending (map (λ m. m.id) materials) (add_operation item original ls db)
add_operation-IsPending item original ls materials db among h n out =
    let lowered : Db = record db {
      stock_operations = map (lower_original original ls) db.stock_operations;
    } in
    IsReplayed-of_relevant n lowered (add_operation item original ls db)
      (rw (not_touched n materials item.lines among out)) refl
      (lowered-IsReplayed n original ls db (h n))

pub log_event-Keeps :
    (env : Env) (id : ℕ) (action : Text) (before after : Option OperationSnapshot)
    → Keeps IsConsistent (log_event env id action before after)
unfolding log_event
log_event-Keeps env id action before after =
    Ensures-modify _ (λ db h n. record { chain = (h n).chain; total = (h n).total })

enqueue_event-Keeps :
    (env : Env) (event : WebhookEventType) (contents : EventData)
    → Keeps IsConsistent (enqueue_event env event contents)
unfolding enqueue_event
enqueue_event-Keeps env event contents =
    Ensures-modify _ (λ db h n. record { chain = (h n).chain; total = (h n).total })

announce-Keeps :
    (env : Env) (item : StockOperation) (original_id : Option ℕ)
    → Keeps IsConsistent (announce env item original_id)
unfolding announce
announce-Keeps env item none = search (keeps_rules, log_event-Keeps, enqueue_event-Keeps)
announce-Keeps env item (some id) = search (keeps_rules, log_event-Keeps)

module _ (env : Env) (request : OperationCreate) (ty : OperationType) (original_id : Option ℕ)
    (original : Option StockOperation) (user : Option MiniProgramUser) where
  pub create_operation-Keeps :
      Keeps IsConsistent (create_operation env request ty original_id original user)
  create_operation-Keeps =
      create_operation-rule env request ty original_id original user IsConsistent
        (λ _. IsConsistent) (λ db op h served. h)
        λ materials.
          write_operation-rule env request ty original_id original user IsConsistent
            (λ _. IsPending (map (λ m. m.id) materials)) (λ _. IsConsistent) (λ _. IsConsistent)
            (All (IsAmong materials)) materials
            (λ id. new_lines-IsAmong IsConsistent materials id request.lines)
            (λ id lines db h among.
              add_operation-IsPending (new_operation id ty request original_id user lines) original
                request.lines materials db among h)
            (λ id. replay_materials-IsConsistent env _) (λ id item db h found. h)
            (λ item. announce-Keeps env item original_id)

-- If the quantities of every line and every balance agree with the ledger, they still do after an
-- operation is created, a reversal too: the lines of each material chain up from zero in the order
-- of time and id, and its balance is the signed total of its lines.
pub create_operation-IsConsistent :
    (env : Env) (request : OperationCreate) (ty : OperationType) (original_id : Option ℕ)
    (original : Option StockOperation) (user : Option MiniProgramUser) (db : Db)
    (item : StockOperation) (db' : Db)
    → IsConsistent db
    → create_operation env request ty original_id original user db ≡ ok (item, db')
    → IsConsistent db'
create_operation-IsConsistent env request ty original_id original user db item db' h e =
    (create_operation-Keeps env request ty original_id original user).at db h item db' e
