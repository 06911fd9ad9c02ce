-- ===== src/Inventory/Ledger/Order.antt =====
-- `ledger_order` sorts: what is in order stays as it is, and sums do not change.
use materials_manager.Base.{
  ℕ, ℤ, ◌+ℤ◌, ◌≡◌, refl, true, false, List, [], ◌∷◌, arith, Bool-cases, inl, inr, ap, ◌∙◌, +ℤ_swap,
}
use materials_manager.Model.Stock.{StockOperation}
use materials_manager.Inventory.Replay.{precedes, insert_ordered, ledger_order}
use materials_manager.Inventory.Ledger.{ledger_total, lines_total}

-- The first operation of the list does not come before `op`.
abbrev pub Leads : StockOperation → List StockOperation → Type 0
Leads op [] = Unit
Leads op (p ∷ ops) = precedes op p ≡ true

abbrev pub IsOrdered : List StockOperation → Type 0
IsOrdered [] = Unit
IsOrdered (op ∷ ops) = Leads op ops × IsOrdered ops

pub precedes_total : (a b : StockOperation) → precedes a b ≡ false → precedes b a ≡ true
unfolding precedes
precedes_total a b h = ground arith

pub precedes_trans :
    (a b c : StockOperation) → precedes a b ≡ true → precedes b c ≡ true → precedes a c ≡ true
unfolding precedes
precedes_trans a b c h k = ground arith

pub insert-Leads :
    (p op : StockOperation) (ops : List StockOperation)
    → precedes p op ≡ true
    → Leads p ops
    → Leads p (insert_ordered op ops)
unfolding insert_ordered
insert-Leads p op [] h l = h
insert-Leads p op (q ∷ ops) h l = elim (Bool-cases (precedes op q)) [
  | inl e ↦ rw e h
  | inr e ↦ rw e l
]

pub insert-IsOrdered :
    (op : StockOperation) (ops : List StockOperation)
    → IsOrdered ops
    → IsOrdered (insert_ordered op ops)
unfolding insert_ordered
insert-IsOrdered op [] h = (tt, tt)
insert-IsOrdered op (q ∷ ops) h = elim (Bool-cases (precedes op q)) [
  | inl e ↦ rw e (e, h)
  | inr e ↦ rw e (insert-Leads q op ops (precedes_total op q e) h.0, insert-IsOrdered op ops h.1)
]

pub ledger_order-IsOrdered : (ops : List StockOperation) → IsOrdered (ledger_order ops)
unfolding ledger_order
ledger_order-IsOrdered [] = tt
ledger_order-IsOrdered (op ∷ ops) =
    insert-IsOrdered op (ledger_order ops) (ledger_order-IsOrdered ops)

pub insert-of_Leads :
    (op : StockOperation) (ops : List StockOperation)
    → Leads op ops
    → insert_ordered op ops ≡ op ∷ ops
unfolding insert_ordered
insert-of_Leads op [] h = refl
insert-of_Leads op (q ∷ ops) h = rw h

pub insert_later :
    (op q : StockOperation) (ops : List StockOperation)
    → precedes op q ≡ false
    → insert_ordered op (q ∷ ops) ≡ q ∷ insert_ordered op ops
unfolding insert_ordered
insert_later op q ops h = rw h

pub ledger_order-of_IsOrdered : (ops : List StockOperation) → IsOrdered ops → ledger_order ops ≡ ops
unfolding ledger_order
ledger_order-of_IsOrdered [] h = refl
ledger_order-of_IsOrdered (op ∷ ops) h =
    rw (ledger_order-of_IsOrdered ops h.1) (insert-of_Leads op ops h.0)

ledger_total-insert :
    (m : ℕ) (op : StockOperation) (ops : List StockOperation)
    → ledger_total m (insert_ordered op ops) ≡ ledger_total m (op ∷ ops)
unfolding insert_ordered
ledger_total-insert m op [] = refl
ledger_total-insert m op (q ∷ ops) = elim (Bool-cases (precedes op q)) [
  | inl e ↦ rw e
  | inr e ↦ rw e (
      ap (λ (t : ℤ). lines_total m q.operation_type q.lines +ℤ t) (ledger_total-insert m op ops)
      ∙ +ℤ_swap _ _ _)
]

pub ledger_total-ledger_order :
    (m : ℕ) (ops : List StockOperation) → ledger_total m (ledger_order ops) ≡ ledger_total m ops
unfolding ledger_order
ledger_total-ledger_order m [] = refl
ledger_total-ledger_order m (op ∷ ops) =
    ledger_total-insert m op (ledger_order ops)
    ∙ ap (λ (t : ℤ). lines_total m op.operation_type op.lines +ℤ t)
        (ledger_total-ledger_order m ops)
