-- ===== src/Inventory/Create/Idempotent.antt =====
-- A request that is sent again is answered with the operation that it made, and changes nothing.
use materials_manager.Base.{
  ℕ, ℤ, ◌≡◌, refl, Option, none, some, Bool, true, List, [], ◌∷◌, arith, Bool-cases, inl, inr, ap,
  ◌∙◌, ◌||◌, map, find, any, All, Text, text_eq, text_eq_refl, pos,
}
use materials_manager.Core.Enums.{OperationType}
use materials_manager.Core.Tx.{ok, Tx, ◌>>=◌, gets, pure}
use materials_manager.Core.Tx.Ensures.{
  Ensures, Keeps, Ensures-bind, Ensures-modify, Keeps-gets, Keeps-or_raise, Keeps-for_each,
}
use materials_manager.Model.Stock.{StockOperation, MiniProgramUser}
use materials_manager.Model.Database.{Db, Env}
use materials_manager.Schemas.Operations.{OperationLineWrite, OperationCreate}
use materials_manager.Webhook.{enqueue_event}
use materials_manager.Inventory.Rows.{by_request, find_by_request, has_id, log_event}
use materials_manager.Inventory.Replay.{
  replay_lines, replay_operations, insert_ordered, ledger_order, precedes, replay_material,
  replay_materials,
}
use materials_manager.Inventory.Create.{lower_original, announce, create_operation}
use materials_manager.Inventory.Create.Rule.{
  new_lines-IsAmong, write_operation-rule, create_operation-rule,
}

-- The rows of a request id all have one id.
abbrev Only : Text → ℕ → List StockOperation → Type 0
Only c id = All (λ op. text_eq op.client_request_id c ≡ true → op.id ≡ id)

-- The request id `c` is served by the operation `id`, and by no other.
record IsServed (c : Text) (id : ℕ) (ops : List StockOperation) : Type 0 where
  there : any (by_request c) ops ≡ true
  only : Only c id ops

any-insert :
    (c : Text) (op : StockOperation) (ops : List StockOperation)
    → any (by_request c) (insert_ordered op ops) ≡ any (by_request c) (op ∷ ops)
unfolding insert_ordered
any-insert c op [] = refl
any-insert c op (q ∷ ops) = ground (arith, any-insert c op ops)

any-ledger_order :
    (c : Text) (ops : List StockOperation)
    → any (by_request c) (ledger_order ops) ≡ any (by_request c) ops
unfolding ledger_order
any-ledger_order c [] = refl
any-ledger_order c (op ∷ ops) =
    any-insert c op (ledger_order ops)
    ∙ ap (λ (b : Bool). by_request c op || b) (any-ledger_order c ops)

Only-insert :
    (c : Text) (id : ℕ) (op : StockOperation) (ops : List StockOperation)
    → Only c id (op ∷ ops)
    → Only c id (insert_ordered op ops)
unfolding insert_ordered
Only-insert c id op [] h = h
Only-insert c id op (q ∷ ops) h = elim (Bool-cases (precedes op q)) [
  | inl e ↦ rw e h
  | inr e ↦ rw e (h.1.0, Only-insert c id op ops (h.0, h.1.1))
]

Only-ledger_order :
    (c : Text) (id : ℕ) (ops : List StockOperation) → Only c id ops → Only c id (ledger_order ops)
unfolding ledger_order
Only-ledger_order c id [] h = tt
Only-ledger_order c id (op ∷ ops) h =
    Only-insert c id op (ledger_order ops) (h.0, Only-ledger_order c id ops h.1)

any-replay :
    (c : Text) (m : ℕ) (r : ℤ) (ops : List StockOperation)
    → any (by_request c) (replay_operations m r ops).1 ≡ any (by_request c) ops
unfolding replay_operations
any-replay c m r [] = refl
any-replay c m r (op ∷ ops) =
    ap (λ (b : Bool). by_request c op || b)
      (any-replay c m (replay_lines m op.operation_type r op.lines).0 ops)

Only-replay :
    (c : Text) (id m : ℕ) (r : ℤ) (ops : List StockOperation)
    → Only c id ops
    → Only c id (replay_operations m r ops).1
unfolding replay_operations
Only-replay c id m r [] h = tt
Only-replay c id m r (op ∷ ops) h =
    (h.0, Only-replay c id m (replay_lines m op.operation_type r op.lines).0 ops h.1)

abbrev Served : Text → ℕ → Db → Type 0
Served c id db = IsServed c id db.stock_operations

replay_material-Served :
    (env : Env) (c : Text) (id m : ℕ) → Keeps (Served c id) (replay_material env m)
unfolding replay_material
replay_material-Served env c id m =
    Ensures-bind (λ _. Served c id) (Keeps-gets _)
      λ balance.
        Ensures-bind (λ _. Served c id) (Keeps-or_raise balance _)
          λ _. Ensures-modify _ λ db h. record {
            there =
                any-replay c m (pos 0) (ledger_order db.stock_operations)
                ∙ any-ledger_order c db.stock_operations
                ∙ h.there;
            only =
                Only-replay c id m (pos 0) (ledger_order db.stock_operations)
                  (Only-ledger_order c id db.stock_operations h.only);
          }

replay_materials-Served :
    (env : Env) (c : Text) (id : ℕ) (ms : List ℕ) → Keeps (Served c id) (replay_materials env ms)
unfolding replay_materials
replay_materials-Served env c id ms =
    Keeps-for_each (replay_material env) _ (replay_material-Served env c id)

announce-Served :
    (env : Env) (c : Text) (id : ℕ) (item : StockOperation) (original_id : Option ℕ)
    → Keeps (Served c id) (announce env item original_id)
unfolding announce log_event enqueue_event
announce-Served env c id item none =
    Ensures-bind (λ _. Served c id) (Ensures-modify _ (λ db h. h))
      (λ _. Ensures-modify _ (λ db h. h))
announce-Served env c id item (some o) = Ensures-modify _ (λ db h. h)

lowered_request :
    (original : Option StockOperation) (ls : List OperationLineWrite) (op : StockOperation)
    → (lower_original original ls op).client_request_id ≡ op.client_request_id
lowered_request none ls op = refl
lowered_request (some o) ls op = ground arith

Only-unserved :
    (c : Text) (id : ℕ) (original : Option StockOperation) (ls : List OperationLineWrite)
    (ops : List StockOperation)
    → find (by_request c) ops ≡ none
    → Only c id (map (lower_original original ls) ops)
Only-unserved c id original ls [] h = tt
Only-unserved c id original ls (op ∷ ops) h = (
  λ e. absurd (served (rw (lowered_request original ls op) at e)),
  Only-unserved c id original ls ops (ground arith),
)
  where
    served : text_eq op.client_request_id c ≡ true → ⊥
    served e = ground arith

has_id-of_find :
    (id : ℕ) (ops : List StockOperation) (item : StockOperation)
    → find (has_id id) ops ≡ some item
    → item.id ≡ id
has_id-of_find id [] item h = cc
has_id-of_find id (op ∷ ops) item h = ground (arith, has_id-of_find id ops item)

module _ (env : Env) (request : OperationCreate) (ty : OperationType) (original_id : Option ℕ)
    (original : Option StockOperation) (user : Option MiniProgramUser) where
  abbrev c : Text
  c = request.client_request_id

  create_operation-Served :
      Ensures
        (λ db. find_by_request c db ≡ none)
        (create_operation env request ty original_id original user)
        (λ item. Served c item.id)
  create_operation-Served =
      create_operation-rule env request ty original_id original user
        (λ db. find_by_request c db ≡ none) (λ item. Served c item.id)
        (λ db op h served. cc (h, served))
        λ materials.
          write_operation-rule env request ty original_id original user
            (λ db. find_by_request c db ≡ none) (Served c) (Served c) (λ item. Served c item.id)
            (λ _. Unit {0}) materials
            (λ id. record {
              at = λ db p new db' e. (
                ((new_lines-IsAmong (λ t. find_by_request c t ≡ none) materials id request.lines).at
                    db p new db' e).0,
                tt,
              );
            })
            (λ id lines db h _. record {
              there = rw (text_eq_refl c);
              only = (λ e. refl, Only-unserved c id original request.lines db.stock_operations h);
            })
            (λ id. replay_materials-Served env c id _)
            (λ id item db h found. rw (has_id-of_find id db.stock_operations item found) h)
            (λ item. announce-Served env c item.id item original_id)

find-of_any :
    (c : Text) (id : ℕ) (ops : List StockOperation)
    → IsServed c id ops
    → (op : StockOperation) × (find (by_request c) ops ≡ some op) × (op.id ≡ id)
find-of_any c id [] h = absurd (ground arith)
find-of_any c id (op ∷ ops) h = elim (Bool-cases (by_request c op)) [
  | inl e ↦ (op, rw e, h.only.0 e)
  | inr e ↦
      let (found, f, i) = find-of_any c id ops (record { there = ground arith; only = h.only.1 }) in
      (found, rw e f, i)
]

answer :
    (o : Option StockOperation) (op : StockOperation) (db : Db) (action : Tx Db StockOperation)
    → o ≡ some op
    → (elim o as (λ _. Tx Db StockOperation) [ some op' ↦ pure op' | none ↦ action ]) db
      ≡ ok (op, db)
unfolding pure
answer none op db action h = cc
answer (some op') op db action h = cc

create_served :
    (env : Env) (request : OperationCreate) (ty : OperationType) (original_id : Option ℕ)
    (original : Option StockOperation) (user : Option MiniProgramUser) (db : Db)
    (op : StockOperation)
    → find_by_request request.client_request_id db ≡ some op
    → create_operation env request ty original_id original user db ≡ ok (op, db)
unfolding create_operation ◌>>=◌ gets
create_served env request ty original_id original user db op h =
    answer (find_by_request request.client_request_id db) op db _ h

-- Once a request has created an operation, any later request with the same request id, whatever else
-- it says, leaves the database as it is and is answered with the operation of the same id.
pub create_operation_idempotent :
    (env env' : Env) (request request' : OperationCreate) (ty ty' : OperationType)
    (original_id original_id' : Option ℕ) (original original' : Option StockOperation)
    (user user' : Option MiniProgramUser) (db : Db) (item : StockOperation) (db' : Db)
    → find_by_request request.client_request_id db ≡ none
    → create_operation env request ty original_id original user db ≡ ok (item, db')
    → request'.client_request_id ≡ request.client_request_id
    → (op : StockOperation) × (create_operation env' request' ty' original_id' original' user' db'
        ≡ ok (op, db'))
      × (op.id ≡ item.id)
create_operation_idempotent env env' request request' ty ty' original_id original_id' original
      original' user user' db item db' new e same =
    let (op, found, i) =
      find-of_any request.client_request_id item.id db'.stock_operations
        ((create_operation-Served env request ty original_id original user).at db new item db' e) in
    (op, create_served env' request' ty' original_id' original' user' db' op (rw same found), i)
