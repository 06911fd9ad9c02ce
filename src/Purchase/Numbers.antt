-- ===== src/Purchase/Numbers.antt =====
-- `next_purchase_plan_no` of backend/app/services/material_service.py: the number after the largest one
-- that a plan or a record's snapshot has for the date.
pub mod Digits
pub mod Largest
pub mod Fresh
use materials_manager.Base.{
  ℕ, ◌+◌, ◌-◌, ◌*◌, Text, text, Option, none, some, Bool, true, false, List, [], ◌∷◌, ◌++◌, ◌&&◌,
  ◌||◌, ◌==◌, ltb, leb, all, keep, map, contains, truthy, if◌then◌else◌,
}
use materials_manager.Core.Errors.{ErrorCode, app_error, Failure}
use materials_manager.Core.Calendar.{date_of_days, format_date, zero_padded}
use materials_manager.Core.Tx.{Tx, err, ◌>>=◌, ◌>>◌, pure, gets, raise_if}
use materials_manager.Model.Purchase.{Date}
use materials_manager.Model.Database.{Db}

-- `str.__lt__`
unfoldable pub text_ltb : Text → Text → Bool
text_ltb [] [] = false
text_ltb [] (d ∷ t) = true
text_ltb (c ∷ s) [] = false
text_ltb (c ∷ s) (d ∷ t) = ltb c d || (c == d && text_ltb s t)

-- `LIKE prefix%`
abbrev pub starts_with : Text → Text → Bool
starts_with [] s = true
starts_with (c ∷ p) [] = false
starts_with (c ∷ p) (d ∷ s) = c == d && starts_with p s

abbrev pub larger : Text → Option Text → Option Text
larger s none = some s
larger s (some t) = if text_ltb s t then some t else some s

unfoldable pub max_text : List Text → Option Text
max_text [] = none
max_text (s ∷ ss) = larger s (max_text ss)

-- `rsplit("-", 1)[-1]`
unfoldable pub last_segment : Text → Text
last_segment [] = []
last_segment (c ∷ s) =
    let rest = last_segment s in if contains 45 s then rest else if c == 45 then s else c ∷ s

-- `int(...)` of decimal digits; the numbers that the program writes have no other form.
unfoldable pub digits_value : ℕ → Text → ℕ
digits_value acc [] = acc
digits_value acc (c ∷ s) = digits_value (acc * 10 + (c - 48)) s

abbrev pub is_digit : ℕ → Bool
is_digit c = leb 48 c && leb c 57

unfoldable pub to_int : Text → Tx Db ℕ
to_int s db =
    if truthy s && all is_digit s then pure (digits_value 0 s) db else err Failure.value_error

abbrev pub plan_prefix : Date → Text
plan_prefix plan_date = text "PLAN-" ++ (format_date (date_of_days plan_date) ++ text "-")

-- The numbers of the plans and of the records.
abbrev pub numbers_of : Text → Db → List Text
numbers_of prefix db = keep (starts_with prefix) (
    map (λ m. m.plan_no) db.purchase_materials
    ++ map (λ l. l.plan_no_snapshot) db.purchase_request_lines)

unfoldable pub next_index : Option Text → Tx Db ℕ
next_index none = pure 1
next_index (some previous) = do last ← to_int (last_segment previous); pure (last + 1)

unfoldable pub next_purchase_plan_no : Date → Tx Db Text
next_purchase_plan_no plan_date = do
  previous ← gets (λ db. max_text (numbers_of (plan_prefix plan_date) db))
  index ← next_index previous
  raise_if (ltb 999 index) (app_error ErrorCode.plan_daily_limit_exceeded (some 409))
  pure (plan_prefix plan_date ++ zero_padded 3 index)
