-- ===== src/Core/Paging.antt =====
-- What the lists of the services share: the terms of a search (`split_or_search_terms` and `contains_any` of
-- backend/app/services/common.py), an order by descending keys, and one page of a query.
pub mod Pages
use materials_manager.Base.{
  ℕ, ◌-◌, ◌*◌, Text, text_eq, Option, none, some, Bool, true, false, List, [], ◌∷◌, ◌||◌, not, ◌==◌,
  any, keep, take, drop, truthy, strip, if◌then◌else◌,
}

-- The parts of a text between the code points that pass.
abbrev pub split_at : (ℕ → Bool) → Text → Text × List Text
split_at p [] = ([], [])
split_at p (c ∷ s) =
    let rest = split_at p s in if p c then ([], rest.0 ∷ rest.1) else (c ∷ rest.0, rest.1)

abbrev pub split_on : (ℕ → Bool) → Text → List Text
split_on p s = let parts = split_at p s in parts.0 ∷ parts.1

-- `dict.fromkeys`: the first of equal texts stays.
abbrev pub dedupe : List Text → List Text
dedupe [] = []
dedupe (s ∷ rest) = s ∷ keep (λ t. not (text_eq s t)) (dedupe rest)

-- `|` and its full-width form.
abbrev pub is_bar : ℕ → Bool
is_bar c = c == 124 || c == 65372

abbrev pub strip_all : List Text → List Text
strip_all [] = []
strip_all (s ∷ rest) = strip s ∷ strip_all rest

unfoldable pub split_or_search_terms : Option Text → List Text
split_or_search_terms none = []
split_or_search_terms (some value) = dedupe (keep truthy (strip_all (split_on is_bar value)))

-- `contains` is the database's `LIKE`, with the collation of the column.
module _ (contains : Text → Text → Bool) where
  abbrev column_contains : Text → Option Text → Bool
  column_contains term none = false
  column_contains term (some value) = contains value term

  -- `contains_any`, on the columns of one row. Without a term it is no condition.
  unfoldable pub contains_any : List (Option Text) → Option Text → Bool
  contains_any columns value = elim (split_or_search_terms value) [
    | [] ↦ true
    | t ∷ terms ↦ any (λ term. any (column_contains term) columns) (t ∷ terms)
  ]

-- `order_by(...)`, for a test that a row comes before another one.
module _ {A : Type 0} (before : A → A → Bool) where
  abbrev pub insert_row : A → List A → List A
  insert_row x [] = x ∷ []
  insert_row x (y ∷ ys) = let rest = insert_row x ys in if before y x then y ∷ rest else x ∷ y ∷ ys

  unfoldable pub order_rows : List A → List A
  order_rows [] = []
  order_rows (x ∷ xs) = insert_row x (order_rows xs)

-- `.offset((page - 1) * page_size).limit(page_size)`; a page is at least 1.
unfoldable pub page_of {ℓ} : {A : Type ℓ} → ℕ → ℕ → List A → List A
page_of page page_size rows = take page_size (drop ((page - 1) * page_size) rows)
