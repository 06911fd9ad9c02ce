-- ===== src/Materials/Drafts/Tests.antt =====
-- A draft for a material that is low.
use materials_manager.Base.{ℕ, ◌≡◌, refl, pos, text, none, some, true, [], ◌∷◌}
use materials_manager.Core.Calendar.{date_of_days, format_date, zero_padded}
use materials_manager.Core.Paging.{order_rows}
use materials_manager.Core.Quantity.{tenths, decimal_exponent, validate_quantity_precision}
use materials_manager.Core.Tx.{Result, ok, err, actions}
use materials_manager.Model.Stock.{StockMaterial}
use materials_manager.Model.Database.{Db, Env, empty_db}
use materials_manager.Purchase.Numbers.{max_text, next_index, next_purchase_plan_no}
use materials_manager.Purchase.Plans.{
  check_files, validate_stock_link, try_create, create_purchase_material,
}
use materials_manager.Materials.Drafts.{
  ReplenishmentDraftCreate, recent_outbound_consumption, decimal_text, value_error_if,
  create_replenishment_draft,
}
use materials_manager.Materials.Drafts.Low.{IsDrafted, create_replenishment_draft-IsDrafted}

abbrev nut : StockMaterial
nut = record {
  id = 4;
  uuid = text "u4";
  name = text "nut";
  name_id = none;
  alias = none;
  model_spec = text "M6";
  unit_name = text "pcs";
  remark = none;
  identity_hash = text "h4";
  replenishment_policy = some (record { minimum_qty = pos 50; enabled = true; version = 1 });
  images = [];
  version = 1;
}

abbrev store : Db
store = record empty_db {
  stock_materials = nut ∷ [];
  stock_balances =
      record { stock_material_id = 4; quantity = pos 20; version = 1; updated_at = 0 } ∷ [];
}

abbrev noon : Env
noon = record { now = 1700000000000000; event_id = text "e1" }

abbrev draft : ReplenishmentDraftCreate
draft = record {
  planned_qty = record { coefficient = 100; places = 0 };
  demand_date = some 19675;
  actual_demand_person = text "li";
  purchase_responsible = text "wu";
}

abbrev outcome : Result (ℕ × Db)
outcome = create_replenishment_draft noon 4 draft store

abbrev answer_of : Result (ℕ × Db) → ℕ × Db
answer_of (ok q) = q
answer_of (err e) = (0, empty_db)

drafts : outcome ≡ ok (answer_of outcome)
unfolding create_replenishment_draft recent_outbound_consumption decimal_text value_error_if
    create_purchase_material try_create check_files validate_stock_link next_purchase_plan_no
    next_index max_text zero_padded format_date date_of_days validate_quantity_precision
    decimal_exponent tenths order_rows actions
drafts = refl

create_replenishment_draft-IsDrafted_example : IsDrafted noon 4 draft store (answer_of outcome)
create_replenishment_draft-IsDrafted_example =
    create_replenishment_draft-IsDrafted noon 4 draft store (answer_of outcome) (λ d. tt) drafts
