-- ===== src/MiniProgram/Warehouse.antt =====
-- The secondary warehouse as the mini program shows it: the material part of
-- backend/app/services/mini_program_service.py, without the pictures' addresses.
pub mod Status
pub mod Tests
pub mod Outbound
use materials_manager.Base.{
  ℕ, ℤ, pos, ltb_ℤ, Text, text, text_eq, Option, none, some, Bool, true, false, List, [], ◌∷◌, ◌++◌,
  not, ◌&&◌, ◌||◌, ◌==◌, ltb, leb, any, find, keep, map, length, truthy?, strip, ◌+◌, if◌then◌else◌,
}
use materials_manager.Core.Errors.{ErrorCode, app_error, not_found}
use materials_manager.Core.Enums.{MiniProgramStockStatus}
use materials_manager.Core.Paging.{contains_any, order_rows, page_of}
use materials_manager.Core.Tx.{Tx, ◌>>=◌, gets, or_raise}
use materials_manager.Model.Stock.{StockMaterial, StockBalance, StockReplenishmentPolicy}
use materials_manager.Model.Database.{Db}
use materials_manager.Inventory.Replay.{balance_of}

-- `UUID` is compared as the text that the table holds.
unfoldable pub get_material : Text → Tx Db StockMaterial
get_material material_uuid = do
  item ← gets (λ db. find (λ m. text_eq m.uuid material_uuid) db.stock_materials)
  or_raise item not_found

abbrev pub balance_quantity : Option StockBalance → ℤ
balance_quantity none = pos 0
balance_quantity (some balance) = balance.quantity

-- `item.balance.quantity if item.balance else Decimal("0")`
abbrev pub current_qty : Db → StockMaterial → ℤ
current_qty db item = balance_quantity (balance_of item.id db)

abbrev pub is_low : ℤ → Option StockReplenishmentPolicy → Bool
is_low current none = false
is_low current (some policy) = policy.enabled && not (ltb_ℤ policy.minimum_qty current)

-- `_stock_status`
unfoldable pub stock_status : Db → StockMaterial → MiniProgramStockStatus
stock_status db item =
    if not (ltb_ℤ (pos 0) (current_qty db item))
    then MiniProgramStockStatus.out_of_stock
    else if is_low (current_qty db item) item.replenishment_policy
    then MiniProgramStockStatus.low_stock
    else MiniProgramStockStatus.normal

-- `StockReplenishmentPolicy.enabled.is_(True), current_qty <= StockReplenishmentPolicy.minimum_qty`, on the
-- row of an outer join.
abbrev pub policy_condition : ℤ → Option StockReplenishmentPolicy → Bool
policy_condition current none = false
policy_condition current (some policy) = policy.enabled && not (ltb_ℤ policy.minimum_qty current)

-- The condition of `list_inventory` on the status.
unfoldable pub status_condition : Option MiniProgramStockStatus → Db → StockMaterial → Bool
status_condition none db item = true
status_condition (some MiniProgramStockStatus.normal) db item = true
status_condition (some MiniProgramStockStatus.out_of_stock) db item =
    not (ltb_ℤ (pos 0) (current_qty db item))
status_condition (some MiniProgramStockStatus.low_stock) db item =
    ltb_ℤ (pos 0) (current_qty db item)
    && policy_condition (current_qty db item) item.replenishment_policy

abbrev pub newer : StockMaterial → StockMaterial → Bool
newer a b = ltb b.id a.id

module _ (contains : Text → Text → Bool) (keyword : Option Text) where
  abbrev pub keyword_condition : StockMaterial → Bool
  keyword_condition item =
      contains_any contains (some item.name ∷ item.name_id ∷ item.alias ∷ some item.model_spec ∷ [])
        keyword

module _ (contains : Text → Text → Bool) (keyword : Option Text)
    (status : Option MiniProgramStockStatus) where
  -- The rows of the query of `list_inventory`, in its order.
  unfoldable pub inventory_query : Db → List StockMaterial
  inventory_query db = order_rows newer (
      keep (λ item. keyword_condition contains keyword item && status_condition status db item)
        db.stock_materials)

  unfoldable pub list_inventory : ℕ → ℕ → Db → List StockMaterial × ℕ
  list_inventory page page_size db =
      (page_of page page_size (inventory_query db), length (inventory_query db))

-- `value.split(separator, maxsplit=1)[0]`
abbrev pub before_first : ℕ → Text → Text
before_first separator [] = []
before_first separator (c ∷ s) =
    let rest = before_first separator s in if c == separator then [] else c ∷ rest

-- `.replace("_", "-").lower()`. No letter outside ASCII has a lower case that is one of ASCII's `i`, `n`
-- or `d` alone, and only these are compared.
abbrev lower_code : ℕ → ℕ
lower_code c = if c == 95 then 45 else if leb 65 c && leb c 90 then c + 32 else c

abbrev language_code : Option Text → Text
language_code none = []
language_code (some language) =
    before_first 45 (map lower_code (strip (before_first 59 (before_first 44 language))))

abbrev name_or : Option Text → Text → Text
name_or value other = if truthy? value then (elim value [ some s ↦ s | none ↦ other ]) else other

abbrev with_alias : Text → Option Text → Text
with_alias name value =
    if truthy? value
    then (elim value [ some s ↦ name ++ text "（" ++ s ++ text "）" | none ↦ name ])
    else name

unfoldable pub localized_material_name : StockMaterial → Option Text → Text
localized_material_name item language =
    if text_eq (language_code language) (text "id") || text_eq (language_code language) (text "in")
    then name_or item.name_id item.name
    else with_alias item.name item.alias

pub record MiniProgramInventoryItemRead : Type 0 where
  pub uuid : Text
  pub name : Text
  pub model_spec : Text
  pub unit_name : Text
  pub current_qty : ℤ
  pub stock_status : MiniProgramStockStatus

abbrev pub inventory_item_read : Db → StockMaterial → Option Text → MiniProgramInventoryItemRead
inventory_item_read db item language = record {
  uuid = item.uuid;
  name = localized_material_name item language;
  model_spec = item.model_spec;
  unit_name = item.unit_name;
  current_qty = current_qty db item;
  stock_status = stock_status db item;
}

pub record MiniProgramMaterialRead : Type 0 where
  pub uuid : Text
  pub name : Text
  pub model_spec : Text
  pub unit_name : Text
  pub current_qty : ℤ
  pub stock_status : MiniProgramStockStatus
  pub minimum_qty : Option ℤ
  pub remark : Option Text
  pub images : List Text

abbrev shown_minimum : Option StockReplenishmentPolicy → Option ℤ
shown_minimum none = none
shown_minimum (some policy) = if policy.enabled then some policy.minimum_qty else none

-- `images` are the ids of the files.
abbrev pub material_read : Db → StockMaterial → Option Text → MiniProgramMaterialRead
material_read db item language = record {
  uuid = item.uuid;
  name = localized_material_name item language;
  model_spec = item.model_spec;
  unit_name = item.unit_name;
  current_qty = current_qty db item;
  stock_status = stock_status db item;
  minimum_qty = shown_minimum item.replenishment_policy;
  remark = item.remark;
  images = item.images;
}
