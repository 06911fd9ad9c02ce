-- ===== src/Imports/Batches.antt =====
-- The batches of an import write every row once, in order.
use mathlib.Core.List.{append-nil, append_assoc}
use materials_manager.Base.{
  ℕ, zero, suc, ◌+◌, ◌≤◌, ◌≡◌, sym, ap, ◌∙◌, List, [], ◌++◌, take, drop, length, ltb,
  take-append-drop, drop-drop, drop-all, Bool-cases, inl, inr, arith,
}
use materials_manager.Imports.{insert_batches, insert_batch_size}

module _ {A : Type 0} where
  at_end :
      (offset : ℕ) (rows table : List A) → length rows ≤ offset → table ≡ table ++ drop offset rows
  at_end offset rows table h =
      sym (ap (λ (r : List A). table ++ r) (drop-all offset rows h) ∙ append-nil table)

  one_batch :
      (k offset : ℕ) (rows table : List A)
      → (table ++ take k (drop offset rows)) ++ drop (offset + k) rows ≡ table ++ drop offset rows
  one_batch k offset rows table =
      append_assoc table (take k (drop offset rows)) (drop (offset + k) rows)
      ∙ ap (λ (r : List A). table ++ r)
          (ap (λ (r : List A). take k (drop offset rows) ++ r) (sym (drop-drop k offset rows))
            ∙ take-append-drop k (drop offset rows))

  -- With fuel for every row, the rows stand behind what was in the table.
  batches-drop :
      (fuel offset : ℕ) (rows table : List A)
      → length rows ≤ fuel + offset
      → insert_batches fuel offset rows table ≡ table ++ drop offset rows
  unfolding insert_batches
  batches-drop zero offset rows table h = at_end offset rows table (omega arith)
  batches-drop (suc fuel) offset rows table h = elim (Bool-cases (ltb offset (length rows))) [
    | inl more ↦ rw more (
        batches-drop fuel (offset + insert_batch_size) rows
          (table ++ take insert_batch_size (drop offset rows)) (omega arith)
        ∙ one_batch insert_batch_size offset rows table)
    | inr done ↦ rw done (at_end offset rows table (ground arith))
  ]

  -- An import writes the rows to the table that it has emptied, in order and each once.
  pub insert_batches-all : (rows : List A) → insert_batches (length rows) 0 rows [] ≡ rows
  insert_batches-all rows = batches-drop (length rows) 0 rows [] (omega arith)
