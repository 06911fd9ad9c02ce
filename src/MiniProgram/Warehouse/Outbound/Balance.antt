-- ===== src/MiniProgram/Warehouse/Outbound/Balance.antt =====
-- `create_outbound` takes its quantity from the balance of the scanned material.
use materials_manager.Base.{
  find-true, ℕ, ◌+◌, ◌≡◌, ap, sym, subst, ◌∙◌, ℤ, pos, ◌-ℤ◌, int_laws, Text, text_eq, text_eq→eq,
  none, some, Bool, true, false, ◌==◌, find, arith, if◌then◌else◌,
}
use materials_manager.Core.Enums.{OperationType}
use materials_manager.Core.Quantity.{tenths}
use materials_manager.Core.Tx.{Tx, ok, ◌>>◌}
use materials_manager.Core.Tx.Inversion.{
  bind-inv, gets-inv, or_raise-inv, or_raise-last, raise_if-last, pure-inv, pure-state,
}
use materials_manager.Model.Stock.{StockMaterial, StockBalance, StockOperation, MiniProgramUser}
use materials_manager.Model.Database.{Db, Env}
use materials_manager.Inventory.Ledger.{IsConsistent}
use materials_manager.Inventory.Replay.{balance_of}
use materials_manager.Inventory.Rows.{find_by_request}
use materials_manager.Inventory.Create.{create_operation}
use materials_manager.Inventory.Create.Consistent.{create_operation-IsConsistent}
use materials_manager.Inventory.Create.Balance.{balance_after, create_operation-balance}
use materials_manager.MiniProgram.{is_lite_secondary_warehouse}
use materials_manager.MiniProgram.Warehouse.{get_material}
use materials_manager.MiniProgram.Warehouse.Outbound.{
  MiniProgramOutboundCreate, MiniProgramOutboundRead, read_outbound,
  ensure_not_lite_secondary_warehouse, outbound_request, create_outbound,
}

abbrev pub has_uuid : Text → StockMaterial → Bool
has_uuid uuid m = text_eq m.uuid uuid

ensure_not_lite-inv :
    {A : Type 0} (k : Tx Db A) (db : Db) (q : A × Db)
    → (ensure_not_lite_secondary_warehouse >> k) db ≡ ok q
    → (is_lite_secondary_warehouse db ≡ false) × (k db ≡ ok q)
unfolding ensure_not_lite_secondary_warehouse
ensure_not_lite-inv k db q h =
    let (u, t, e, h1) = bind-inv _ _ db q h in
    let (full, same) = raise_if-last _ _ db (u, t) (gets-inv _ _ db (u, t) e) in
    (full, ap k (sym same) ∙ h1)

get_material-inv :
    (uuid : Text) (db : Db) (q : StockMaterial × Db)
    → get_material uuid db ≡ ok q
    → (find (has_uuid uuid) db.stock_materials ≡ some q.0) × (q.1 ≡ db)
unfolding get_material
get_material-inv uuid db q h = or_raise-last _ _ db q (gets-inv _ _ db q h)

read_outbound-inv :
    (item : StockOperation) (material : StockMaterial) (user : MiniProgramUser) (db : Db)
    (q : MiniProgramOutboundRead × Db)
    → read_outbound item material user db ≡ ok q
    → (q.0.material_uuid ≡ material.uuid) × (q.0.operation_id ≡ item.id) × (q.1 ≡ db)
unfolding read_outbound
read_outbound-inv item material user db q h =
    let (line, e, h1) = or_raise-inv _ _ _ db q h in
    (
      ap (λ (r : MiniProgramOutboundRead). r.material_uuid) (pure-inv _ db q h1),
      ap (λ (r : MiniProgramOutboundRead). r.operation_id) (pure-inv _ db q h1),
      pure-state _ db q h1,
    )

abbrev pub lowered_by : Bool → ℤ → ℕ → ℤ
lowered_by true balance quantity = balance -ℤ pos quantity
lowered_by false balance quantity = balance

-_zero : (b : ℤ) → b -ℤ pos (0 + 0) ≡ b
-_zero b = grind int_laws

moved-lowered :
    (hit : Bool) (b : ℤ) (n : ℕ)
    → balance_after OperationType.outbound b ((if hit then n else 0) + 0) ≡ lowered_by hit b n
moved-lowered true b n = ap (λ k. b -ℤ pos k) (omega arith)
moved-lowered false b n = -_zero b

-- One balance is lower by `n`, and every other one has its quantity still.
abbrev pub IsLowered : ℕ → ℕ → Db → Db → Type 0
IsLowered n id db db' =
    (m : ℕ) (b : StockBalance)
    → balance_of m db ≡ some b
    → (b' : StockBalance) × (balance_of m db' ≡ some b')
      × (b'.quantity ≡ lowered_by (id == m) b.quantity n)

created-balance :
    (env : Env) (request : MiniProgramOutboundCreate) (user : MiniProgramUser)
    (material : StockMaterial) (db : Db) (op : StockOperation) (db' : Db)
    → IsConsistent db
    → find_by_request request.client_request_id db ≡ none
    → create_operation env
        (outbound_request request material user)
        OperationType.outbound
        none
        none
        (some user)
        db
      ≡ ok (op, db')
    → IsConsistent db' × IsLowered (tenths request.quantity) material.id db db'
created-balance env request user material db op db' consistent new e = (
  create_operation-IsConsistent env (outbound_request request material user) OperationType.outbound
      none none (some user) db op db' consistent e,
  λ m b at.
      let (b', there, moves) =
        create_operation-balance env (outbound_request request material user) OperationType.outbound
          none none (some user) db op db' m b consistent new at e in
      (b', there, moves ∙ moved-lowered (material.id == m) b.quantity (tenths request.quantity)),
)

-- From a ledger that agrees with the balances, a request of the mini program that was not served before
-- and that succeeds is one in full mode, and its material is the row with the uuid that was scanned. It
-- lowers the balance of this material by the quantity in tenths, and changes no other balance's quantity;
-- the ledger agrees with the balances still.
pub create_outbound-balance :
    (env : Env) (request : MiniProgramOutboundCreate) (user : MiniProgramUser) (db : Db)
    (q : MiniProgramOutboundRead × Db)
    → IsConsistent db
    → find_by_request request.client_request_id db ≡ none
    → create_outbound env request user db ≡ ok q
    → (material : StockMaterial) × (find (has_uuid request.material_uuid) db.stock_materials
        ≡ some material)
      × (q.0.material_uuid ≡ request.material_uuid)
      × (is_lite_secondary_warehouse db ≡ false)
      × IsConsistent q.1
      × IsLowered (tenths request.quantity) material.id db q.1
unfolding create_outbound
create_outbound-balance env request user db q consistent new h =
    let (full, h1) = ensure_not_lite-inv _ db q h in
    let (material, t, em, h2) = bind-inv _ _ db q h1 in
    let (found, same) = get_material-inv request.material_uuid db (material, t) em in
    let (op, db', eo, h3) = bind-inv _ _ t q h2 in
    let (shown, number, last) = read_outbound-inv op material user db' q h3 in
    let created =
      ap
        (create_operation env (outbound_request request material user) OperationType.outbound none
          none (some user))
        (sym same)
      ∙ eo in
    let (kept, lowered) =
      created-balance env request user material db op db' consistent new created in
    (
      material,
      found,
      shown ∙ text_eq→eq _ _ (find-true _ db.stock_materials material found),
      full,
      subst IsConsistent (sym last) kept,
      subst (IsLowered (tenths request.quantity) material.id db) (sym last) lowered,
    )
