-- ===== src/Imports/Lite.antt =====
-- The lite inventory of backend/app/services/lite_inventory_service.py: parsing a table and replacing the
-- inventory by it.
pub mod Agree
pub mod Imported
pub mod Tests
use materials_manager.Base.{
  ℕ, ◌&&◌, Text, text, text_eq, Option, none, some, Bool, true, false, List, [], ◌∷◌, not, any,
  truthy, strip, if◌then◌else◌,
}
use materials_manager.Core.Errors.{ErrorCode, app_error, Failure}
use materials_manager.Core.Tx.{Result, ok, err, Tx, ◌>>=◌, ◌>>◌, pure, raise_if, or_raise}
use materials_manager.Imports.{Row, locate, row_values, value_of, non_empty}
use materials_manager.Imports.Codes.{is_nil, validate_length}
use materials_manager.Imports.Numbers.{Number, number_of, number_eq}
use materials_manager.Imports.Replaced.{InventorySummary, replace_rows}

pub record LiteInventory : Type 0 where
  pub name : Text
  pub model_spec : Option Text
  pub unit_name : Option Text
  pub quantity : Option Number
  pub remark : Option Text

abbrev pub optional_eq : {A : Type 0} → (A → A → Bool) → Option A → Option A → Bool
optional_eq eq none none = true
optional_eq eq (some a) (some b) = eq a b
optional_eq eq _ _ = false

-- Equality of `_dedupe_key`.
abbrev pub same_row : LiteInventory → LiteInventory → Bool
same_row a b =
    text_eq a.name b.name
    && (optional_eq text_eq a.model_spec b.model_spec
        && (optional_eq text_eq a.unit_name b.unit_name
            && (optional_eq number_eq a.quantity b.quantity
                && optional_eq text_eq a.remark b.remark)))

abbrev lite_headers : List Text
lite_headers = text "物资名称" ∷ text "型号规格" ∷ text "单位" ∷ text "数量" ∷ text "备注" ∷ []

unfoldable pub cell_quantity : {S : Type 0} → Text → Tx S (Option Number)
cell_quantity value =
    if truthy (strip value)
    then (do
      number ← or_raise (number_of value) (app_error ErrorCode.import_invalid_quantity none)
      pure (some number))
    else pure none

-- A row that has a value. Its quantity is read after the lengths were checked.
unfoldable pub lite_row : List Text → Tx (Unit {0}) LiteInventory
lite_row values = do
  raise_if (not (truthy (value_of 0 values))) (app_error ErrorCode.import_name_required none)
  validate_length (value_of 0 values) 128
  validate_length (value_of 1 values) 255
  validate_length (value_of 2 values) 32
  validate_length (value_of 4 values) 1000
  quantity ← cell_quantity (value_of 3 values)
  pure (record {
    name = value_of 0 values;
    model_spec = non_empty (value_of 1 values);
    unit_name = non_empty (value_of 2 values);
    quantity = quantity;
    remark = non_empty (value_of 4 values);
  })

unfoldable pub lite_rows : List ℕ → List Row → Tx (Unit {0}) (List LiteInventory)
lite_rows columns [] = pure []
lite_rows columns (r ∷ rs) = elim (any truthy (row_values columns r)) [
  | false ↦ lite_rows columns rs
  | true ↦ do row ← lite_row (row_values columns r); rest ← lite_rows columns rs; pure (row ∷ rest)
]

unfoldable pub parse_lite_file : List Row → Tx (Unit {0}) (List LiteInventory)
parse_lite_file rows = do
  found ←
      or_raise (locate (λ h. h) lite_headers 20 rows)
        (app_error ErrorCode.import_headers_missing none)
  parsed ← lite_rows found.0 found.1
  raise_if (is_nil parsed) (app_error ErrorCode.import_empty none)
  pure parsed

-- `quantity` is a column `Numeric(18, 2)`: `as_stored` is what the database makes of a decimal there, or
-- none if it refuses it.
module _ (as_stored : Number → Option Number) where
  abbrev pub store_quantity : Option Number → Option (Option Number)
  store_quantity none = some none
  store_quantity (some n) = elim (as_stored n) [ none ↦ none | some m ↦ some (some m) ]

  abbrev pub store_row : LiteInventory → Option LiteInventory
  store_row row = elim (store_quantity row.quantity) [
    | none ↦ none
    | some quantity ↦ some (record row { quantity = quantity })
  ]

  unfoldable pub store_rows : List LiteInventory → Option (List LiteInventory)
  store_rows [] = some []
  store_rows (row ∷ rows) = elim (store_row row) [
    | none ↦ none
    | some r ↦ (elim (store_rows rows) [ none ↦ none | some rs ↦ some (r ∷ rs) ])
  ]

  abbrev pub written_rows :
      InventorySummary
      → Option (List LiteInventory)
      → Result (InventorySummary × List LiteInventory)
  written_rows summary none = err Failure.data_error
  written_rows summary (some rows) = ok (summary, rows)

  abbrev lite_replaced :
      Result (List LiteInventory × Unit {0}) → Result (InventorySummary × List LiteInventory)
  lite_replaced (err e) = err e
  lite_replaced (ok (rows, u)) =
      let replaced = replace_rows same_row rows in written_rows replaced.0 (store_rows replaced.1)

  -- `process_import_file`, with the rows of the file, or what reading it raised.
  unfoldable pub process_lite_inventory :
      Result (List Row) → Tx (List LiteInventory) InventorySummary
  process_lite_inventory (err e) table = err e
  process_lite_inventory (ok rows) table = lite_replaced (parse_lite_file rows tt)
