-- ===== src/Imports/Codes/Tests.antt =====
-- A run of an import, and an instance of its theorem.
use materials_manager.Base.{
  ◌≡◌, refl, pos, text, none, some, List, [], ◌∷◌, is_space, strip_start, strip_end, strip,
}
use materials_manager.Core.Tx.{Result, ok, actions}
use materials_manager.Core.Calendar.{zero_padded}
use materials_manager.Imports.{
  Cell, Row, cell_text, last_index, header_indexes, locate, insert_batches,
}
use materials_manager.Imports.Codes.{
  MaterialCode, summary_of, validate_length, check_row, parse_rows, parse_material_codes,
  process_material_codes,
}
use materials_manager.Imports.Codes.Distinct.{
  IsImported, IsCounted, process_material_codes-IsImported,
}

-- A title, the headers in another order, a code that a workbook holds as a float, and an empty row.
abbrev rows : List Row
rows =
    (Cell.shown (text "编码库") ∷ [])
    ∷ (Cell.shown (text " 名称 ")
        ∷ Cell.shown (text "编码")
        ∷ Cell.shown (text "记账单位名称")
        ∷ Cell.shown (text "型号")
        ∷ [])
    ∷ (Cell.blank ∷ Cell.whole (pos 1002) (text "1002.0") ∷ Cell.shown (text "pc") ∷ [])
    ∷ (Cell.shown (text "  ") ∷ Cell.blank ∷ [])
    ∷ (Cell.shown (text "bolt")
        ∷ Cell.shown (text "A7")
        ∷ Cell.shown (text "kg")
        ∷ Cell.shown (text "M8")
        ∷ [])
    ∷ []

abbrev library : List MaterialCode
library =
    record { material_code = text "1002"; name = none; model_spec = none; unit_name = text "pc" }
    ∷ record {
      material_code = text "A7";
      name = some (text "bolt");
      model_spec = some (text "M8");
      unit_name = text "kg";
    }
    ∷ []

imports : process_material_codes (ok rows) [] ≡ ok (summary_of library, library)
unfolding process_material_codes parse_material_codes parse_rows check_row validate_length locate
    header_indexes last_index cell_text strip strip_start strip_end is_space insert_batches actions
    zero_padded
imports = refl

process_material_codes-IsImported_example :
    (rs : List Row) × (◌≡◌ {A = Result (List Row)} (ok rows) (ok rs))
    × IsImported rs library
    × IsCounted library (summary_of library)
process_material_codes-IsImported_example =
    process_material_codes-IsImported (ok rows) [] (summary_of library, library) imports
