-- ===== src/Materials/Drafts.antt =====
-- The replenishment drafts of backend/app/services/replenishment_service.py, with `recent_outbound_consumption`
-- of backend/app/repositories/inventory_repository.py.
pub mod Low
pub mod Newest
pub mod Tests
use materials_manager.Base.{
  ℕ, suc, ◌+◌, ◌-◌, ◌*◌, ◌/◌, ◌%◌, ◌^◌, ℤ, pos, ltb_ℤ, Text, text, text_eq, Option, none, some,
  Bool, true, false, List, [], ◌∷◌, ◌++◌, not, ◌&&◌, ◌||◌, ◌==◌, ltb, leb, any, find, keep, map,
  length, is_some, strip, truthy, if◌then◌else◌,
}
use materials_manager.Core.Errors.{ErrorCode, app_error, not_found, Failure}
use materials_manager.Core.Enums.{PurchasePlanStatus, is_outbound, is_reversal}
use materials_manager.Core.Calendar.{Time, CivilDate, microseconds_per_day, date_of, zero_padded}
use materials_manager.Core.Paging.{order_rows}
use materials_manager.Core.Quantity.{Decimal, validate_quantity_precision}
use materials_manager.Core.Tx.{Tx, err, ◌>>=◌, ◌>>◌, pure, gets, raise_if, or_raise}
use materials_manager.Model.Stock.{
  StockMaterial, StockOperation, StockOperationLine, StockReplenishmentPolicy,
}
use materials_manager.Model.Purchase.{Date, PurchaseMaterial}
use materials_manager.Model.Database.{Db, Env}
use materials_manager.Schemas.Purchase.{PurchaseMaterialCreate}
use materials_manager.Purchase.Plans.{shanghai_today, create_purchase_material}
use materials_manager.Inventory.Replay.{balance_of}

abbrev is_leap : ℕ → Bool
is_leap year = year % 4 == 0 && (not (year % 100 == 0) || year % 400 == 0)

-- `monthrange(year, month)[1]`
abbrev month_days : ℕ → ℕ → ℕ
month_days year month =
    if month == 2
    then (if is_leap year then 29 else 28)
    else if month == 4 || (month == 6 || (month == 9 || month == 11))
    then 30
    else 31

abbrev min_ℕ : ℕ → ℕ → ℕ
min_ℕ a b = if leb a b then a else b

-- `_months_before`, of the date; the time of day stays.
unfoldable pub months_before : CivilDate → ℕ → CivilDate
months_before value months =
    let month_index = value.year * 12 + value.month - 1 - months in
    record {
      year = month_index / 12;
      month = month_index % 12 + 1;
      day = min_ℕ value.day (month_days (month_index / 12) (month_index % 12 + 1));
    }

abbrev date_ltb : CivilDate → CivilDate → Bool
date_ltb a b =
    ltb a.year b.year
    || (a.year == b.year && (ltb a.month b.month || (a.month == b.month && ltb a.day b.day)))

abbrev date_eq : CivilDate → CivilDate → Bool
date_eq a b = a.year == b.year && (a.month == b.month && a.day == b.day)

-- `occurred_at >= start_at`, where the start is a date with the time of day of the end.
abbrev from_start : CivilDate → Time → Time → Bool
from_start start end_at at =
    date_ltb start (date_of at)
    || (date_eq start (date_of at)
        && leb (end_at % microseconds_per_day) (at % microseconds_per_day))

abbrev is_reversal_of : ℕ → StockOperation → Bool
is_reversal_of id op = elim op.reversal_of_id [ none ↦ false | some original ↦ original == id ]

-- The outbound operations of the last six months that are no reversal and have none.
abbrev is_consumption : Time → Db → StockOperation → Bool
is_consumption end_at db op =
    is_outbound op.operation_type
    && (not (is_reversal op.source_type)
        && (from_start (months_before (date_of end_at) 6) end_at op.occurred_at
            && (leb op.occurred_at end_at && not (any (is_reversal_of op.id) db.stock_operations))))

abbrev lines_quantity : ℕ → List StockOperationLine → Option ℕ
lines_quantity id [] = none
lines_quantity id (line ∷ lines) =
    let rest = lines_quantity id lines in
    if line.stock_material_id == id
    then some (line.quantity + (elim rest [ none ↦ 0 | some n ↦ n ]))
    else rest

abbrev all_lines : List StockOperation → List StockOperationLine
all_lines [] = []
all_lines (op ∷ ops) = op.lines ++ all_lines ops

-- The entry of one material in the dictionary, in tenths: none without a row.
unfoldable pub recent_outbound_consumption : Time → ℕ → Db → Option ℕ
recent_outbound_consumption end_at id db =
    lines_quantity id (all_lines (keep (is_consumption end_at db) db.stock_operations))

pub record ReplenishmentDraftCreate : Type 0 where
  pub planned_qty : Decimal
  pub demand_date : Option Date
  pub actual_demand_person : Text
  pub purchase_responsible : Text

-- `str` of a decimal without an exponent.
unfoldable pub decimal_text : Decimal → Text
decimal_text d =
    if d.places == 0
    then zero_padded 1 d.coefficient
    else zero_padded 1 (d.coefficient / 10 ^ d.places)
      ++ (text "." ++ zero_padded d.places (d.coefficient % 10 ^ d.places))

-- A sum of a `Numeric(18, 1)` column, or `ZERO`.
abbrev pub suggested_quantity : Option ℕ → Decimal
suggested_quantity none = record { coefficient = 0; places = 0 }
suggested_quantity (some n) = record { coefficient = n; places = 1 }

abbrev decimal_eq : Decimal → Decimal → Bool
decimal_eq a b = a.coefficient * 10 ^ b.places == b.coefficient * 10 ^ a.places

abbrev pub quantity_note : Decimal → Decimal → Text → Text
quantity_note planned suggested unit_name =
    text "补库计划：建议申购 "
    ++ (decimal_text suggested
        ++ (text " "
            ++ (unit_name
                ++ (if decimal_eq planned suggested
                    then []
                    else text "，确认计划 " ++ (decimal_text planned ++ (text " " ++ unit_name))))))

-- `"；".join(part for part in [stock.remark, quantity_note] if part)`
abbrev pub draft_remark : Option Text → Text → Text
draft_remark none note = note
draft_remark (some []) note = note
draft_remark (some (c ∷ s)) note = (c ∷ s) ++ (text "；" ++ note)

abbrev pub later_plan : PurchaseMaterial → PurchaseMaterial → Bool
later_plan a b = ltb b.id a.id

abbrev pub names_stock : ℕ → PurchaseMaterial → Bool
names_stock id m = elim m.stock_material_id [ none ↦ false | some s ↦ s == id ]

abbrev pub first_code : List PurchaseMaterial → Option Text
first_code [] = none
first_code (m ∷ rest) = m.material_code

-- The material code of the newest plan of the material that has one.
abbrev pub previous_code : ℕ → Db → Option Text
previous_code id db = first_code (
    order_rows later_plan
      (keep (λ m. names_stock id m && is_some m.material_code) db.purchase_materials))

abbrev pub draft_request :
    ReplenishmentDraftCreate → StockMaterial → Option Text → Text → PurchaseMaterialCreate
draft_request request stock code remark = record {
  plan_date = request.demand_date;
  material_code = code;
  category = none;
  urgency = text "正常";
  demand_department = text "HXNI 检修维护部";
  name = stock.name;
  model_spec = stock.model_spec;
  unit_name = stock.unit_name;
  actual_demand_person = some request.actual_demand_person;
  purchase_responsible = some request.purchase_responsible;
  planned_qty = request.planned_qty;
  usage = text "低库存补库";
  subitem_no = none;
  remark = some remark;
  stock_material_id = some stock.id;
  image_ids = stock.images;
  status = PurchasePlanStatus.normal;
}

-- `PurchaseMaterialCreate(...)` raises `ValidationError`, a `ValueError`, for a remark of more than 1000.
unfoldable pub value_error_if : Bool → Tx Db (Unit {0})
value_error_if true db = err Failure.value_error
value_error_if false db = pure tt db

abbrev pub check_draft : Text → Tx Db (Unit {0})
check_draft remark = value_error_if (ltb 1000 (length remark))

abbrev pub is_not_low : ℤ → Option StockReplenishmentPolicy → Bool
is_not_low quantity none = true
is_not_low quantity (some policy) = not policy.enabled || ltb_ℤ policy.minimum_qty quantity

-- The id of the plan that was created.
unfoldable pub create_replenishment_draft : Env → ℕ → ReplenishmentDraftCreate → Tx Db ℕ
create_replenishment_draft env stock_material_id request = do
  row ← gets (λ db. find (λ m. m.id == stock_material_id) db.stock_materials)
  stock ← or_raise row not_found
  found ← gets (balance_of stock.id)
  balance ← or_raise found (app_error ErrorCode.balance_missing (some 409))
  raise_if (is_not_low balance.quantity stock.replenishment_policy)
      (app_error ErrorCode.not_low_stock (some 409))
  consumed ← gets (recent_outbound_consumption env.now stock.id)
  validate_quantity_precision request.planned_qty
  code ← gets (previous_code stock.id)
  let remark =
      draft_remark stock.remark
        (quantity_note request.planned_qty (suggested_quantity consumed) stock.unit_name)
  check_draft remark
  purchase ← create_purchase_material env (draft_request request stock code remark)
  pure purchase.id

pub record ReplenishmentDefaultsRead : Type 0 where
  pub purchase_responsible : Text
  pub demand_date : Date

-- `func.trim(...).not_in(("", "\\", "/", "—", "-"))`; `trim` is the database's.
abbrev is_placeholder : (Text → Text) → Text → Bool
is_placeholder trim s =
    any (text_eq (trim s)) ([] ∷ text "\\" ∷ text "/" ∷ text "—" ∷ text "-" ∷ [])

abbrev first_responsible : List PurchaseMaterial → Text
first_responsible [] = []
first_responsible (m ∷ rest) = m.purchase_responsible

unfoldable pub replenishment_defaults : (trim : Text → Text) → Env → Db → ReplenishmentDefaultsRead
replenishment_defaults trim env db = record {
  purchase_responsible = first_responsible (
      order_rows later_plan
        (keep (λ m. not (is_placeholder trim m.purchase_responsible)) db.purchase_materials));
  demand_date = shanghai_today env;
}
