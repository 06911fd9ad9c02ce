-- ===== src/Inventory/Ledger/Replayed.antt =====
-- One pass of `replay_material` makes its own material's ledger agree with its balance, and leaves
-- the others as they were.
use materials_manager.Base.{
  ℕ, ℤ, pos, ◌≡◌, ◌≢◌, refl, some, Bool, false, List, [], ◌∷◌, arith, Bool-cases, inl, inr, ap, sym,
  ◌∙◌, ◌==◌, ==→eq, find, map, zero-+ℤ, contains, ◌||◌,
}
use materials_manager.Core.Tx.{for_each}
use materials_manager.Core.Tx.Ensures.{
  Ensures, Ensures-bind, Ensures-modify, Ensures-pure, Keeps-gets, Keeps-or_raise,
}
use materials_manager.Model.Stock.{StockBalance, StockOperation}
use materials_manager.Model.Database.{Db, Env}
use materials_manager.Inventory.Validate.{insert_new, sorted_set}
use materials_manager.Inventory.Replay.{
  replay_operations, ledger_order, set_balance, replay_material, replay_materials,
}
use materials_manager.Inventory.Ledger.{IsReplayed, IsConsistent}
use materials_manager.Inventory.Ledger.Chain.{
  replay_operations-advance, replay_operations-OperationChain, replay_operations-keeps,
  replay_operations-total, replay_operations-IsOrdered,
}
use materials_manager.Inventory.Ledger.Order.{
  ledger_order-IsOrdered, ledger_order-of_IsOrdered, ledger_total-ledger_order,
}
use materials_manager.Inventory.Ledger.Total.{advance_operations-eq-add}

abbrev is_of : ℕ → StockBalance → Bool
is_of m b = b.stock_material_id == m

find-set_balance_self :
    (env : Env) (m : ℕ) (r : ℤ) (bs : List StockBalance) (b : StockBalance)
    → find (is_of m) (map (set_balance env m r) bs) ≡ some b
    → b.quantity ≡ r
find-set_balance_self env m r [] b h = cc
find-set_balance_self env m r (c ∷ bs) b h = elim (Bool-cases (c.stock_material_id == m)) [
  | inl e ↦ ground arith
  | inr e ↦ find-set_balance_self env m r bs b (ground arith)
]

find-set_balance_ne :
    (env : Env) (m n : ℕ) (r : ℤ) (bs : List StockBalance)
    → n ≢ m
    → find (is_of n) (map (set_balance env m r) bs) ≡ find (is_of n) bs
find-set_balance_ne env m n r [] ne = refl
find-set_balance_ne env m n r (c ∷ bs) ne = ground (arith, find-set_balance_ne env m n r bs ne)

-- What the loop body leaves, if the material has a balance.
abbrev replayed : Env → ℕ → Db → Db
replayed env m db =
    let (running, operations) = replay_operations m (pos 0) (ledger_order db.stock_operations) in
    record db {
      stock_operations = operations;
      stock_balances = map (set_balance env m running) db.stock_balances;
    }

-- A second sort changes nothing.
ledger_order-replayed :
    (m : ℕ) (r : ℤ) (ops : List StockOperation)
    → ledger_order (replay_operations m r (ledger_order ops)).1
      ≡ (replay_operations m r (ledger_order ops)).1
ledger_order-replayed m r ops =
    ledger_order-of_IsOrdered _
      (replay_operations-IsOrdered m r (ledger_order ops) (ledger_order-IsOrdered ops))

pub replayed_self : (env : Env) (m : ℕ) (db : Db) → IsReplayed m (replayed env m db)
replayed_self env m db = record {
  chain =
      rw ledger_order-replayed
        (replay_operations-OperationChain m (pos 0) (ledger_order db.stock_operations));
  total = λ b found.
      find-set_balance_self env m _ db.stock_balances b found
      ∙ replay_operations-advance m (pos 0) (ledger_order db.stock_operations)
      ∙ advance_operations-eq-add m (pos 0) (ledger_order db.stock_operations)
      ∙ zero-+ℤ _
      ∙ sym (replay_operations-total m m (pos 0) (ledger_order db.stock_operations));
}

pub replayed_ne :
    (env : Env) (m n : ℕ) (db : Db) → n ≢ m → IsReplayed n db → IsReplayed n (replayed env m db)
replayed_ne env m n db ne h = record {
  chain =
      rw ledger_order-replayed
        (replay_operations-keeps m n (pos 0) (pos 0) (ledger_order db.stock_operations) ne h.chain);
  total = λ b found.
      h.total b (sym (find-set_balance_ne env m n _ db.stock_balances ne) ∙ found)
      ∙ sym (ledger_total-ledger_order n db.stock_operations)
      ∙ sym (replay_operations-total m n (pos 0) (ledger_order db.stock_operations));
}

-- The materials of `ms` are to be replayed; the others agree already.
abbrev pub IsPending : List ℕ → Db → Type 0
IsPending ms db = (n : ℕ) → contains n ms ≡ false → IsReplayed n db

pub replay_material-IsPending :
    (env : Env) (m : ℕ) (ms : List ℕ)
    → Ensures (IsPending (m ∷ ms)) (replay_material env m) (λ _. IsPending ms)
unfolding replay_material
replay_material-IsPending env m ms =
    Ensures-bind (λ _. IsPending (m ∷ ms)) (Keeps-gets _)
      λ balance.
        Ensures-bind (λ _. IsPending (m ∷ ms)) (Keeps-or_raise balance _)
          λ _. Ensures-modify _ λ db pending n h. elim (Bool-cases (n == m)) [
            | inl e ↦ rw (==→eq n m e) (replayed_self env m db)
            | inr e ↦ replayed_ne env m n db (ground arith) (pending n (rw e h))
          ]

replay_loop-IsPending :
    (env : Env) (ms : List ℕ)
    → Ensures (IsPending ms) (for_each ms (replay_material env)) (λ _. IsConsistent)
unfolding for_each
replay_loop-IsPending env [] = Ensures-pure tt (λ db pending n. pending n refl)
replay_loop-IsPending env (m ∷ ms) =
    Ensures-bind (λ _. IsPending ms) (replay_material-IsPending env m ms)
      (λ _. replay_loop-IsPending env ms)

contains-insert_new :
    (n m : ℕ) (ms : List ℕ) → contains n (insert_new m ms) ≡ (n == m || contains n ms)
unfolding insert_new
contains-insert_new n m [] = refl
contains-insert_new n m (k ∷ ms) = ground (arith, contains-insert_new n m ms)

pub contains-sorted_set : (n : ℕ) (ms : List ℕ) → contains n (sorted_set ms) ≡ contains n ms
unfolding sorted_set
contains-sorted_set n [] = refl
contains-sorted_set n (m ∷ ms) =
    contains-insert_new n m (sorted_set ms)
    ∙ ap (λ (b : Bool). n == m || b) (contains-sorted_set n ms)

-- If the materials whose rows were changed are replayed, the whole ledger agrees again.
pub replay_materials-IsConsistent :
    (env : Env) (ms : List ℕ) → Ensures (IsPending ms) (replay_materials env ms) (λ _. IsConsistent)
unfolding replay_materials
replay_materials-IsConsistent env ms = record {
  at = λ db pending.
      (replay_loop-IsPending env (sorted_set ms)).at db
        (λ n h. pending n (sym (contains-sorted_set n ms) ∙ h));
}
