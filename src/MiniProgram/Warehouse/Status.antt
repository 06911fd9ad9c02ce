-- ===== src/MiniProgram/Warehouse/Status.antt =====
-- The filter of `list_inventory` and the status that `_stock_status` shows agree.
use materials_manager.Base.{
  ℕ, zero, suc, ◌*◌, ◌≤◌, ◌≡◌, ◌≢◌, refl, ap, ◌∙◌, ℤ, pos, ltb_ℤ, Text, Option, none, some, Bool,
  true, false, List, [], ◌++◌, not, ◌&&◌, keep, keep-ext, length, if◌then◌else◌,
}
use materials_manager.Core.Enums.{MiniProgramStockStatus, status_eq}
use materials_manager.Core.Paging.{order_rows, page_of}
use materials_manager.Core.Paging.Pages.{pages, pages-all}
use materials_manager.Model.Stock.{StockMaterial, StockReplenishmentPolicy}
use materials_manager.Model.Database.{Db}
use materials_manager.MiniProgram.Warehouse.{
  current_qty, is_low, policy_condition, stock_status, status_condition, newer, keyword_condition,
  inventory_query, list_inventory,
}

is_low-condition :
    (q : ℤ) (policy : Option StockReplenishmentPolicy) → policy_condition q policy ≡ is_low q policy
is_low-condition q none = refl
is_low-condition q (some policy) = refl

status_eq-out :
    (empty low : Bool)
    → not empty
      ≡ status_eq
          (if not empty
            then MiniProgramStockStatus.out_of_stock
            else if low
            then MiniProgramStockStatus.low_stock
            else MiniProgramStockStatus.normal)
          MiniProgramStockStatus.out_of_stock
status_eq-out true true = refl
status_eq-out true false = refl
status_eq-out false low = refl

status_eq-low :
    (present low : Bool)
    → (present && low)
      ≡ status_eq
          (if not present
            then MiniProgramStockStatus.out_of_stock
            else if low
            then MiniProgramStockStatus.low_stock
            else MiniProgramStockStatus.normal)
          MiniProgramStockStatus.low_stock
status_eq-low true true = refl
status_eq-low true false = refl
status_eq-low false low = refl

status_condition-eq :
    (s : MiniProgramStockStatus) (db : Db) (item : StockMaterial)
    → s ≢ MiniProgramStockStatus.normal
    → status_condition (some s) db item ≡ status_eq (stock_status db item) s
unfolding status_condition stock_status
status_condition-eq MiniProgramStockStatus.normal db item h = absurd (h refl)
status_condition-eq MiniProgramStockStatus.out_of_stock db item h =
    status_eq-out (ltb_ℤ (pos 0) (current_qty db item))
      (is_low (current_qty db item) item.replenishment_policy)
status_condition-eq MiniProgramStockStatus.low_stock db item h =
    ap (λ b. ltb_ℤ (pos 0) (current_qty db item) && b)
      (is_low-condition (current_qty db item) item.replenishment_policy)
    ∙ status_eq-low (ltb_ℤ (pos 0) (current_qty db item))
        (is_low (current_qty db item) item.replenishment_policy)

module _ (contains : Text → Text → Bool) (keyword : Option Text) (db : Db) where
  -- The materials of a status, as `_stock_status` shows it, in the order of the list.
  abbrev pub of_status : MiniProgramStockStatus → List StockMaterial
  of_status s = order_rows newer (
      keep (λ item. keyword_condition contains keyword item && status_eq (stock_status db item) s)
        db.stock_materials)

  -- The items of `n` pages from `page` on.
  abbrev pub listed : Option MiniProgramStockStatus → ℕ → ℕ → ℕ → List StockMaterial
  listed status zero page page_size = []
  listed status (suc n) page page_size =
      (list_inventory contains keyword status page page_size db).0
      ++ listed status n (suc page) page_size

  listed-pages :
      (status : Option MiniProgramStockStatus) (n page page_size : ℕ)
      → listed status n page page_size
        ≡ pages n page page_size (inventory_query contains keyword status db)
  unfolding list_inventory
  listed-pages status zero page page_size = refl
  listed-pages status (suc n) page page_size =
      ap (λ r. page_of page page_size (inventory_query contains keyword status db) ++ r)
        (listed-pages status n (suc page) page_size)

  inventory_query-status :
      (s : MiniProgramStockStatus)
      → s ≢ MiniProgramStockStatus.normal
      → inventory_query contains keyword (some s) db ≡ of_status s
  unfolding inventory_query
  inventory_query-status s h = ap (order_rows newer) (
      keep-ext _ _ db.stock_materials (λ item.
        ap (λ b. keyword_condition contains keyword item && b) (status_condition-eq s db item h)))

  -- The pages of `list_inventory` for the statuses `out_of_stock` and `low_stock`, put together, are
  -- the materials that the keyword matches and that are shown with that status, each once and in the order
  -- of the list, if the pages have room for the total that the list reports. The total is their number.
  pub list_inventory-status :
      (s : MiniProgramStockStatus) (n page_size : ℕ)
      → s ≢ MiniProgramStockStatus.normal
      → (list_inventory contains keyword (some s) 1 page_size db).1 ≤ n * page_size
      → (listed (some s) n 1 page_size ≡ of_status s)
        × ((list_inventory contains keyword (some s) 1 page_size db).1 ≡ length (of_status s))
  unfolding list_inventory
  list_inventory-status s n page_size h room = (
    listed-pages (some s) n 1 page_size
        ∙ pages-all n page_size (inventory_query contains keyword (some s) db) room
        ∙ inventory_query-status s h,
    ap length (inventory_query-status s h),
  )
