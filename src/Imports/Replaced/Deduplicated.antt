-- ===== src/Imports/Replaced/Deduplicated.antt =====
-- `_replace_rows` keeps one of each set of equal rows.
use materials_manager.Base.{
  ◌+◌, ◌≤◌, ◌≡◌, ◌⊎◌, inl, inr, refl, ap, sym, subst, Bool, true, false, List, [], ◌∷◌, any, length,
  All, Bool-cases, arith, All-map, if-true, if-false,
}
use materials_manager.Imports.Batches.{insert_batches-all}
use materials_manager.Imports.Replaced.{deduplicate, replace_rows}

module _ {A : Type 0} (key_eq : A → A → Bool) where
  -- No row has the key of one before it, or of one of `seen`.
  abbrev pub IsApart : List A → List A → Type 0
  IsApart seen [] = Unit
  IsApart seen (row ∷ rows) = (any (key_eq row) seen ≡ false) × IsApart (row ∷ seen) rows

  -- The row is in the table, or its key is that of a row there.
  abbrev pub IsHeld : List A → A → Type 0
  IsHeld [] row = ⊥
  IsHeld (r ∷ rows) row = ((r ≡ row) ⊎ (key_eq row r ≡ true)) ⊎ IsHeld rows row

  deduplicate-IsApart : (seen rows : List A) → IsApart seen (deduplicate key_eq seen rows)
  unfolding deduplicate
  deduplicate-IsApart seen [] = tt
  deduplicate-IsApart seen (row ∷ rows) = elim (Bool-cases (any (key_eq row) seen)) [
    | inl e ↦ rw e (deduplicate-IsApart seen rows)
    | inr e ↦ rw e (e, deduplicate-IsApart (row ∷ seen) rows)
  ]

  -- Of a row that is now looked at, or was seen.
  abbrev IsKnown : List A → List A → A → Type 0
  IsKnown seen table row = (any (key_eq row) seen ≡ true) ⊎ IsHeld table row

  seen_or_held :
      (seen table : List A) (row r : A)
      → IsKnown (row ∷ seen) table r
      → IsKnown seen (row ∷ table) r
  seen_or_held seen table row r (inr held) = inr (inr held)
  seen_or_held seen table row r (inl e) = elim (Bool-cases (key_eq r row)) [
    | inl same ↦ inr (inl (inr same))
    | inr other ↦ inl (ground (arith, e, other))
  ]

  deduplicate-IsKnown :
      (seen rows : List A) → All (IsKnown seen (deduplicate key_eq seen rows)) rows
  unfolding deduplicate
  deduplicate-IsKnown seen [] = tt
  deduplicate-IsKnown seen (row ∷ rows) = elim (Bool-cases (any (key_eq row) seen)) [
    | inl e ↦
        subst (λ t. All (IsKnown seen t) (row ∷ rows)) (sym (if-true _ _ _ e))
          (inl e, deduplicate-IsKnown seen rows)
    | inr e ↦
        subst (λ t. All (IsKnown seen t) (row ∷ rows)) (sym (if-false _ _ _ e))
          (
            inr (inl (inl refl)),
            All-map (seen_or_held seen (deduplicate key_eq (row ∷ seen) rows) row) rows
                (deduplicate-IsKnown (row ∷ seen) rows),
          )
  ]

  deduplicate-All :
      (P : A → Type 0) (seen rows : List A) → All P rows → All P (deduplicate key_eq seen rows)
  unfolding deduplicate
  deduplicate-All P seen [] h = tt
  deduplicate-All P seen (row ∷ rows) h = elim (Bool-cases (any (key_eq row) seen)) [
    | inl e ↦ rw e (deduplicate-All P seen rows h.1)
    | inr e ↦ rw e (h.0, deduplicate-All P (row ∷ seen) rows h.1)
  ]

  length-deduplicate : (seen rows : List A) → length (deduplicate key_eq seen rows) ≤ length rows
  unfolding deduplicate
  length-deduplicate seen [] = omega arith
  length-deduplicate seen (row ∷ rows) = elim (Bool-cases (any (key_eq row) seen)) [
    | inl e ↦ rw e (omega (arith, length-deduplicate seen rows))
    | inr e ↦ rw e (omega (arith, length-deduplicate (row ∷ seen) rows))
  ]

  known-IsHeld : (table : List A) (row : A) → IsKnown [] table row → IsHeld table row
  known-IsHeld table row (inl e) = absurd (cc)
  known-IsHeld table row (inr h) = h

  -- An import of an inventory leaves a table where no two rows have the same key, that has only rows of
  -- the file, and that holds every row of the file or one with its key. The two numbers of its
  -- result are the number of rows in the table, and what is missing to the number in the file.
  pub replace_rows-IsApart :
      (P : A → Type 0) (rows : List A)
      → All P rows
      → IsApart [] (replace_rows key_eq rows).1
        × All P (replace_rows key_eq rows).1
        × All (IsHeld (replace_rows key_eq rows).1) rows
        × ((replace_rows key_eq rows).0.imported_count ≡ length (replace_rows key_eq rows).1)
        × ((replace_rows key_eq rows).0.imported_count
              + (replace_rows key_eq rows).0.deduplicated_count
            ≡ length rows)
  unfolding replace_rows
  replace_rows-IsApart P rows h =
      let table = deduplicate key_eq [] rows in
      let all = insert_batches-all table in
      (
        subst (IsApart []) (sym all) (deduplicate-IsApart [] rows),
        subst (All P) (sym all) (deduplicate-All P [] rows h),
        subst (λ t. All (IsHeld t) rows) (sym all)
            (All-map (known-IsHeld table) rows (deduplicate-IsKnown [] rows)),
        ap length (sym all),
        omega (arith, length-deduplicate [] rows),
      )
