-- ===== src/Imports/Replaced.antt =====
-- What the imports of an inventory share (`_replace_rows` of backend/app/services/lite_inventory_service.py and
-- backend/app/services/huaxing_inventory_service.py): equal rows are written once, in the place of the first.
pub mod Deduplicated
use materials_manager.Base.{ℕ, ◌-◌, Bool, true, false, List, [], ◌∷◌, any, length, if◌then◌else◌}
use materials_manager.Imports.{insert_batches}

pub record InventorySummary : Type 0 where
  pub imported_count : ℕ
  pub deduplicated_count : ℕ

-- `key_eq` is equality of the keys of two rows.
module _ {A : Type 0} (key_eq : A → A → Bool) where
  -- The loop: `seen` holds the rows whose keys were added.
  unfoldable pub deduplicate : List A → List A → List A
  deduplicate seen [] = []
  deduplicate seen (row ∷ rows) =
      let dropped = deduplicate seen rows in
      let kept = deduplicate (row ∷ seen) rows in
      if any (key_eq row) seen then dropped else row ∷ kept

  -- The result, and the table that the rows replace.
  unfoldable pub replace_rows : List A → InventorySummary × List A
  replace_rows rows =
      let deduplicated = deduplicate [] rows in
      (
        record {
          imported_count = length deduplicated;
          deduplicated_count = length rows - length deduplicated;
        },
        insert_batches (length deduplicated) 0 deduplicated [],
      )
