-- ===== src/Imports/Lite/Tests.antt =====
-- An import of the lite inventory, and an instance of its theorem.
use materials_manager.Base.{
  zero, suc, ◌+◌, ◌*◌, ◌/◌, Option, ◌≡◌, refl, pos, negsuc, Text, text, none, some, List, [], ◌∷◌,
  strip, strip_start, strip_end, is_space, ◌-ℤ◌,
}
use materials_manager.Purchase.Numbers.{digits_value}
use materials_manager.Core.Tx.{ok, actions}
use materials_manager.Imports.{
  Cell, Row, cell_text, last_index, header_indexes, locate, insert_batches,
}
use materials_manager.Imports.Codes.{validate_length}
use materials_manager.Imports.Numbers.{Number, number_of, number_eq}
use materials_manager.Imports.Replaced.{InventorySummary, deduplicate, replace_rows}
use materials_manager.Imports.Lite.{
  LiteInventory, cell_quantity, lite_row, lite_rows, parse_lite_file, store_rows,
  process_lite_inventory,
}
use materials_manager.Imports.Lite.Imported.{IsReplaced, process_lite_inventory-IsReplaced}

reads_decimal : number_of (text " -1_2.50e1 ") ≡ some (Number.finite (negsuc 1249) (negsuc 0))
unfolding number_of strip strip_start strip_end is_space digits_value ◌-ℤ◌
reads_decimal = refl

abbrev headers : Row
headers =
    Cell.shown (text "物资名称")
    ∷ Cell.shown (text "型号规格")
    ∷ Cell.shown (text "单位")
    ∷ Cell.shown (text "数量")
    ∷ Cell.shown (text "备注")
    ∷ []

abbrev line : Text → Text → Row
line name quantity = Cell.shown name ∷ Cell.blank ∷ Cell.blank ∷ Cell.shown quantity ∷ []

-- The second row is the first one, with its quantity written in another way; the third has another
-- quantity, which the column rounds to the same.
abbrev file : List Row
file =
    headers
    ∷ line (text "nut") (text "2.0")
    ∷ line (text "nut") (text "2")
    ∷ line (text "nut") (text "2.001")
    ∷ []

-- A column with two decimal places: it rounds the third one, and takes no other numbers.
abbrev two_places : Number → Option Number
two_places (Number.finite (pos a) (negsuc (suc (suc zero)))) =
    some (Number.finite (pos ((a + 5) / 10)) (negsuc 1))
two_places (Number.finite (pos a) (negsuc zero)) = some (Number.finite (pos (a * 10)) (negsuc 1))
two_places _ = none

abbrev nuts : Number → LiteInventory
nuts quantity = record {
  name = text "nut";
  model_spec = none;
  unit_name = none;
  quantity = some quantity;
  remark = none;
}

abbrev imported : InventorySummary × List LiteInventory
imported = (
  record { imported_count = 2; deduplicated_count = 1 },
  nuts (Number.finite (pos 200) (negsuc 1)) ∷ nuts (Number.finite (pos 200) (negsuc 1)) ∷ [],
)

imports : process_lite_inventory two_places (ok file) [] ≡ ok imported
unfolding process_lite_inventory store_rows parse_lite_file lite_rows lite_row cell_quantity
    validate_length locate header_indexes last_index cell_text number_of number_eq deduplicate
    replace_rows insert_batches strip strip_start strip_end is_space actions digits_value ◌-ℤ◌
imports = refl

process_lite_inventory-IsReplaced_example :
    (parsed : List LiteInventory) × (parse_lite_file file tt ≡ ok (parsed, tt))
    × IsReplaced two_places parsed imported
process_lite_inventory-IsReplaced_example =
    process_lite_inventory-IsReplaced two_places file [] imported imports
