-- ===== src/Imports/Codes.antt =====
-- The material code library of backend/app/services/material_code_library_service.py: parsing a table
-- and replacing the library by it. The messages of errors, with the row numbers in them, are left out.
pub mod Described
pub mod Distinct
pub mod Parsed
pub mod Tests
use materials_manager.Base.{
  ℕ, zero, suc, Text, text, text_eq, ◌&&◌, Option, none, some, Bool, true, false, List, [], ◌∷◌,
  not, ltb, length, any, keep, truthy, is_some, if◌then◌else◌,
}
use materials_manager.Core.Errors.{ErrorCode, app_error, Failure}
use materials_manager.Core.Tx.{
  Result, ok, err, Tx, ◌>>=◌, ◌>>◌, pure, gets, modify, raise_if, or_raise,
}
use materials_manager.Purchase.Plans.{has}
use materials_manager.Imports.{Row, locate, row_values, value_of, non_empty, insert_batches}

pub record MaterialCode : Type 0 where
  pub material_code : Text
  pub name : Option Text
  pub model_spec : Option Text
  pub unit_name : Text

abbrev pub expected_headers : List Text
expected_headers = text "编码" ∷ text "名称" ∷ text "型号" ∷ text "记账单位名称" ∷ []

unfoldable pub validate_length : {S : Type 0} → Text → ℕ → Tx S (Unit {0})
validate_length value maximum =
    raise_if (ltb maximum (length value)) (app_error ErrorCode.import_value_too_long none)

abbrev pub new_code : List Text → MaterialCode
new_code values = record {
  material_code = value_of 0 values;
  name = non_empty (value_of 1 values);
  model_spec = non_empty (value_of 2 values);
  unit_name = value_of 3 values;
}

-- A row that has a value. The state is the keys of `seen_codes`.
unfoldable pub check_row : List Text → Tx (List Text) (Unit {0})
check_row values = do
  raise_if (not (truthy (value_of 0 values))) (app_error ErrorCode.import_code_required none)
  raise_if (not (truthy (value_of 3 values))) (app_error ErrorCode.import_unit_required none)
  duplicate ← gets (has (value_of 0 values))
  raise_if duplicate (app_error ErrorCode.import_duplicate none)
  validate_length (value_of 0 values) 64
  validate_length (value_of 1 values) 128
  validate_length (value_of 2 values) 255
  validate_length (value_of 3 values) 32
  modify (λ seen. value_of 0 values ∷ seen)

-- `if not any(values.values()): continue`
unfoldable pub parse_rows : List ℕ → List Row → Tx (List Text) (List MaterialCode)
parse_rows columns [] = pure []
parse_rows columns (r ∷ rs) = elim (any truthy (row_values columns r)) [
  | false ↦ parse_rows columns rs
  | true ↦ do
    check_row (row_values columns r)
    rest ← parse_rows columns rs
    pure (new_code (row_values columns r) ∷ rest)
]

abbrev pub is_nil : {A : Type 0} → List A → Bool
is_nil [] = true
is_nil (x ∷ xs) = false

unfoldable pub parse_material_codes : List Row → Tx (List Text) (List MaterialCode)
parse_material_codes rows = do
  found ←
      or_raise (locate (λ h. h) expected_headers 20 rows)
        (app_error ErrorCode.import_headers_missing none)
  parsed ← parse_rows found.0 found.1
  raise_if (is_nil parsed) (app_error ErrorCode.import_empty none)
  pure parsed

pub record ImportSummary : Type 0 where
  pub imported_count : ℕ
  pub blank_name_count : ℕ
  pub blank_model_spec_count : ℕ

abbrev pub summary_of : List MaterialCode → ImportSummary
summary_of rows = record {
  imported_count = length rows;
  blank_name_count = length (keep (λ r. not (is_some r.name)) rows);
  blank_model_spec_count = length (keep (λ r. not (is_some r.model_spec)) rows);
}

-- The transaction: the library is emptied, and the rows are inserted in batches.
abbrev pub replaced :
    Result (List MaterialCode × List Text) → Result (ImportSummary × List MaterialCode)
replaced (err e) = err e
replaced (ok (rows, seen)) = ok (summary_of rows, insert_batches (length rows) 0 rows [])

-- `process_import_file`, with the rows of the file, or what reading it raised.
unfoldable pub process_material_codes : Result (List Row) → Tx (List MaterialCode) ImportSummary
process_material_codes (err e) library = err e
process_material_codes (ok rows) library = replaced (parse_material_codes rows [])

unfoldable pub material_code_exists : Text → List MaterialCode → Bool
material_code_exists code library = truthy code && any (λ r. text_eq r.material_code code) library
