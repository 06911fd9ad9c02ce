-- ===== src/Imports.antt =====
-- What the imports of backend/app/services share: the cells of a table, the search for its headers,
-- and the insertion of rows in batches. Reading a workbook is outside (`openpyxl`, `xlrd`): a
-- table is the rows of cells that `read_tabular_rows` gives.
pub mod Batches
pub mod Codes
pub mod Numbers
pub mod Lite
pub mod Located
pub mod Replaced
use materials_manager.Base.{
  ℕ, zero, suc, ◌+◌, ◌-◌, ◌*◌, ◌/◌, ◌%◌, ℤ, pos, negsuc, Text, text_eq, Option, none, some, Bool,
  true, false, List, [], ◌∷◌, ◌++◌, map, take, drop, length, ltb, strip, if◌then◌else◌,
}
use materials_manager.Core.Calendar.{zero_padded}

-- A cell: none, a float that is an integer, or another value, given by its `str`. A float comes with
-- its `str` too.
pub data Cell : Type 0 where
  blank : Cell
  whole : ℤ → Text → Cell
  shown : Text → Cell

abbrev pub decimal : ℕ → Text
decimal n = zero_padded 1 n

-- `str` of an integer.
abbrev pub int_text : ℤ → Text
int_text (pos n) = decimal n
int_text (negsuc n) = 45 ∷ decimal (suc n)

unfoldable pub cell_text : Cell → Text
cell_text Cell.blank = []
cell_text (Cell.whole n s) = int_text n
cell_text (Cell.shown s) = strip s

abbrev pub Row : Type 0
Row = List Cell

-- `{header: i for i, header in enumerate(headers) if header}[name]`: the last column of that name.
unfoldable pub last_index : ℕ → Text → List Text → Option ℕ
last_index i name [] = none
last_index i name (h ∷ hs) = elim (last_index (suc i) name hs) [
  | some j ↦ some j
  | none ↦ if text_eq h name then some i else none
]

-- The column of every expected header, if all are there.
unfoldable pub header_indexes : List Text → List Text → Option (List ℕ)
header_indexes [] headers = some []
header_indexes (e ∷ es) headers = elim (last_index 0 e headers) [
  | none ↦ none
  | some i ↦ (elim (header_indexes es headers) [ none ↦ none | some is ↦ some (i ∷ is) ])
]

-- The first row, of the `n` first, that has the headers: their columns, and the rows below it. `alias`
-- is the spelling of a header.
unfoldable pub locate :
    (alias : Text → Text) (expected : List Text) → ℕ → List Row → Option (List ℕ × List Row)
locate alias expected zero rows = none
locate alias expected (suc n) [] = none
locate alias expected (suc n) (r ∷ rs) =
    elim (header_indexes expected (map (λ c. alias (cell_text c)) r)) [
      | some columns ↦ some (columns, rs)
      | none ↦ locate alias expected n rs
    ]

-- `row[column] if column < len(row)`
abbrev pub cell_at : ℕ → Row → Option Cell
cell_at i [] = none
cell_at zero (c ∷ cs) = some c
cell_at (suc i) (c ∷ cs) = cell_at i cs

abbrev pub text_at : Row → ℕ → Text
text_at row column = elim (cell_at column row) [ some c ↦ cell_text c | none ↦ [] ]

abbrev pub row_values : List ℕ → Row → List Text
row_values columns row = map (text_at row) columns

-- `values[header]`, by the place of the header among the expected ones.
abbrev pub value_of : ℕ → List Text → Text
value_of i [] = []
value_of zero (v ∷ vs) = v
value_of (suc i) (v ∷ vs) = value_of i vs

-- `value or None`
abbrev pub non_empty : Text → Option Text
non_empty [] = none
non_empty (c ∷ s) = some (c ∷ s)

abbrev pub insert_batch_size : ℕ
insert_batch_size = 2000

-- `for offset in range(0, len(rows), size)`: a slice is inserted in each round. Fuel bounds the rounds.
unfoldable pub insert_batches : {A : Type 0} → ℕ → ℕ → List A → List A → List A
insert_batches zero offset rows table = table
insert_batches (suc fuel) offset rows table =
    let rest =
      insert_batches fuel (offset + insert_batch_size) rows
        (table ++ take insert_batch_size (drop offset rows)) in
    if ltb offset (length rows) then rest else table
