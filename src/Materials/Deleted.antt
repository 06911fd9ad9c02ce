-- ===== src/Materials/Deleted.antt =====
-- Deleting a stock material leaves no operation, plan or template that names it.
use materials_manager.Base.{
  ℕ, ◌≡◌, refl, sym, subst, ◌∙◌, inl, inr, Option, none, some, Bool, true, false, List, [], ◌∷◌,
  not, ◌==◌, any, keep, map, contains, All, arith, Bool-cases,
}
use materials_manager.Core.Common.{validate_version}
use materials_manager.Core.Tx.{ok}
use materials_manager.Core.Tx.Ensures.{
  Ensures, Ensures-bind, Ensures-gets, Ensures-raise_if, Keeps, Keeps-pure, Keeps-raise_if,
}
use materials_manager.Model.Stock.{StockMaterial, StockOperation, StockOperationLine}
use materials_manager.Model.Purchase.{PurchaseMaterial, PurchasePlanTemplate}
use materials_manager.Model.Database.{Db}
use materials_manager.Materials.{
  names_material, has_operations, unlink_id, unlink_plan, remove_material, is_template_of,
  flush_deletion, delete_stock_material,
}

abbrev pub stock_ids : List StockMaterial → List ℕ
stock_ids = map (λ m. m.id)

-- The materials that an operation names exist.
abbrev pub LinesExist : List ℕ → List StockOperation → Type 0
LinesExist ids = All (λ op. All (λ line. contains line.stock_material_id ids ≡ true) op.lines)

abbrev pub id_exists : List ℕ → Option ℕ → Bool
id_exists ids none = true
id_exists ids (some s) = contains s ids

abbrev pub plan_exists : List ℕ → PurchaseMaterial → Bool
plan_exists ids m = id_exists ids m.stock_material_id

abbrev pub template_exists : List ℕ → PurchasePlanTemplate → Bool
template_exists ids t = id_exists ids t.stock_material_id

pub record IsStocked (db : Db) : Type 0 where
  pub of_lines : LinesExist (stock_ids db.stock_materials) db.stock_operations
  pub of_plans :
      All (λ m. plan_exists (stock_ids db.stock_materials) m ≡ true) db.purchase_materials
  pub of_templates :
      All (λ t. template_exists (stock_ids db.stock_materials) t ≡ true) db.purchase_plan_templates

abbrev others : ℕ → List StockMaterial → List StockMaterial
others id = keep (λ m. not (m.id == id))

contains-others :
    (n id : ℕ) (ms : List StockMaterial)
    → (n == id) ≡ false
    → contains n (stock_ids ms) ≡ true
    → contains n (stock_ids (others id ms)) ≡ true
contains-others n id [] d c = c
contains-others n id (m ∷ ms) d c = elim (Bool-cases (m.id == id)) [
  | inl e ↦ rw e (contains-others n id ms d (ground arith))
  | inr e ↦ elim (Bool-cases (n == m.id)) [
    | inl f ↦ rw (e, f) refl
    | inr f ↦ rw (e, f) (contains-others n id ms d (ground arith))
  ]
]

lines-exist :
    (id : ℕ) (ms : List StockMaterial) (lines : List StockOperationLine)
    → any (λ line. line.stock_material_id == id) lines ≡ false
    → All (λ line. contains line.stock_material_id (stock_ids ms) ≡ true) lines
    → All (λ line. contains line.stock_material_id (stock_ids (others id ms)) ≡ true) lines
lines-exist id ms [] n h = tt
lines-exist id ms (l ∷ ls) n h = (
  contains-others l.stock_material_id id ms (ground arith) h.0,
  lines-exist id ms ls (ground arith) h.1,
)

operations-exist :
    (id : ℕ) (ms : List StockMaterial) (ops : List StockOperation)
    → any (names_material id) ops ≡ false
    → LinesExist (stock_ids ms) ops
    → LinesExist (stock_ids (others id ms)) ops
operations-exist id ms [] n h = tt
operations-exist id ms (op ∷ ops) n h =
    (lines-exist id ms op.lines (ground arith) h.0, operations-exist id ms ops (ground arith) h.1)

unlinked-exists :
    (id : ℕ) (ms : List StockMaterial) (o : Option ℕ)
    → id_exists (stock_ids ms) o ≡ true
    → id_exists (stock_ids (others id ms)) (unlink_id id o) ≡ true
unlinked-exists id ms none h = refl
unlinked-exists id ms (some s) h = elim (Bool-cases (s == id)) [
  | inl c ↦ rw c refl
  | inr c ↦ rw c (contains-others s id ms c h)
]

plans-exist :
    (id : ℕ) (ms : List StockMaterial) (ps : List PurchaseMaterial)
    → All (λ m. plan_exists (stock_ids ms) m ≡ true) ps
    → All (λ m. plan_exists (stock_ids (others id ms)) m ≡ true) (map (unlink_plan id) ps)
plans-exist id ms [] h = tt
plans-exist id ms (p ∷ ps) h =
    (unlinked-exists id ms p.stock_material_id h.0, plans-exist id ms ps h.1)

other-exists :
    (id : ℕ) (ms : List StockMaterial) (o : Option ℕ)
    → (elim o [ some s ↦ s == id | none ↦ false ]) ≡ false
    → id_exists (stock_ids ms) o ≡ true
    → id_exists (stock_ids (others id ms)) o ≡ true
other-exists id ms none n h = refl
other-exists id ms (some s) n h = contains-others s id ms n h

templates-exist :
    (id : ℕ) (ms : List StockMaterial) (ts : List PurchasePlanTemplate)
    → any (is_template_of id) ts ≡ false
    → All (λ t. template_exists (stock_ids ms) t ≡ true) ts
    → All (λ t. template_exists (stock_ids (others id ms)) t ≡ true) ts
templates-exist id ms [] n h = tt
templates-exist id ms (t ∷ ts) n h = (
  other-exists id ms t.stock_material_id (ground arith) h.0,
  templates-exist id ms ts (ground arith) h.1,
)

flush-Ensures :
    (id : ℕ)
    → Ensures
        (λ s. IsStocked s × (has_operations id s ≡ false))
        (flush_deletion id)
        (λ _. IsStocked)
unfolding flush_deletion
flush-Ensures id = record {
  at = λ s h a t e. elim (Bool-cases (any (is_template_of id) s.purchase_plan_templates)) [
    | inl used ↦ let k = rw used at e in absurd (cc)
    | inr free ↦
        let k = rw free at e in
        let same : t ≡ remove_material id s = cc in
        subst IsStocked (sym same) (record {
          of_lines = operations-exist id s.stock_materials s.stock_operations h.1 h.0.of_lines;
          of_plans = plans-exist id s.stock_materials s.purchase_materials h.0.of_plans;
          of_templates =
              templates-exist id s.stock_materials s.purchase_plan_templates free h.0.of_templates;
        })
  ];
}

version-Keeps : (P : Db → Type 0) (v : Option ℕ) (n : ℕ) → Keeps P (validate_version v n)
unfolding validate_version
version-Keeps P none n = Keeps-pure tt
version-Keeps P (some e) n = Keeps-raise_if _ _

delete-Keeps :
    (item : StockMaterial) (version : Option ℕ)
    → Keeps IsStocked (delete_stock_material item version)
unfolding delete_stock_material
delete-Keeps item version =
    Ensures-bind (λ _. IsStocked) (version-Keeps IsStocked version item.version)
      λ _.
        Ensures-bind (λ used s. IsStocked s × (has_operations item.id s ≡ used))
          (Ensures-gets _ (λ s h. (h, refl)))
          λ used.
            Ensures-bind (λ _ s. IsStocked s × (has_operations item.id s ≡ false))
              (Ensures-raise_if used _ (λ s c h. (h.0, h.1 ∙ c))) λ _. flush-Ensures item.id

-- If the stock materials that operations, purchase plans and templates name exist, then they still do
-- after a stock material was deleted.
pub delete_stock_material-IsStocked :
    (item : StockMaterial) (version : Option ℕ) (db db' : Db)
    → IsStocked db
    → delete_stock_material item version db ≡ ok (tt, db')
    → IsStocked db'
delete_stock_material-IsStocked item version db db' h e =
    (delete-Keeps item version).at db h tt db' e
