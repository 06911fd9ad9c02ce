-- ===== src/Materials/Drafts/Newest.antt =====
-- Which material code a draft takes over.
use materials_manager.Base.{
  ℕ, ◌≤◌, ◌≡◌, ◌⊎◌, inl, inr, refl, sym, ap, ◌∙◌, Text, Option, none, some, Bool, true, false, List,
  [], ◌∷◌, ◌==◌, ◌&&◌, is_some, keep, keep-ext, keep-keeps, keep-drops, subst, All, All-map,
  Bool-cases, arith, if-true, if-false,
}
use materials_manager.Core.Paging.{order_rows, insert_row}
use materials_manager.Model.Purchase.{PurchaseMaterial}
use materials_manager.Model.Database.{Db}
use materials_manager.Materials.Drafts.{later_plan, names_stock, first_code, previous_code}

-- The row is in the table.
abbrev pub Among : PurchaseMaterial → List PurchaseMaterial → Type 0
Among m [] = ⊥
Among m (x ∷ xs) = (x ≡ m) ⊎ Among m xs

abbrev pub is_coded_link : ℕ → Option ℕ → Option Text → Bool
is_coded_link id (some s) (some code) = s == id
is_coded_link id _ _ = false

-- A plan of the stock material that has a material code.
abbrev pub is_coded : ℕ → PurchaseMaterial → Bool
is_coded id m = is_coded_link id m.stock_material_id m.material_code

-- The code is that of the plan with the largest id among those of the material that have one; it is
-- missing if there are none.
abbrev pub IsNewestCode : ℕ → List PurchaseMaterial → Option Text → Type 0
IsNewestCode id plans code =
    (All (λ m. is_coded id m ≡ false) plans × (code ≡ none))
    ⊎ ((m : PurchaseMaterial) × Among m plans
        × (is_coded id m ≡ true)
        × (code ≡ m.material_code)
        × All (λ n. is_coded id n ≡ true → n.id ≤ m.id) plans)

module _ (p : PurchaseMaterial → Bool) where
  -- What stands first when the rows that pass are put in order.
  abbrev IsTop : List PurchaseMaterial → List PurchaseMaterial → Type 0
  IsTop ordered ms =
      (All (λ m. p m ≡ false) ms × (ordered ≡ []))
      ⊎ ((m : PurchaseMaterial) × (rest : List PurchaseMaterial) × (ordered ≡ m ∷ rest)
          × Among m ms
          × (p m ≡ true)
          × All (λ n. p n ≡ true → n.id ≤ m.id) ms)

  IsTop-inserted :
      (x : PurchaseMaterial) (ordered ms : List PurchaseMaterial)
      → p x ≡ true
      → IsTop ordered ms
      → IsTop (insert_row later_plan x ordered) (x ∷ ms)
  IsTop-inserted x ordered ms e (inl (none_passes, empty)) = inr (
    x,
    [],
    ap (insert_row later_plan x) empty,
    inl refl,
    e,
    (λ _. omega arith, All-map (λ n f k. absurd (cc)) ms none_passes),
  )
  IsTop-inserted x ordered ms e (inr (m, rest, same, among, pm, largest)) =
      elim (Bool-cases (later_plan m x)) [
        | inl before ↦ inr (
          m,
          insert_row later_plan x rest,
          ap (insert_row later_plan x) same ∙ if-true _ _ _ before,
          inr among,
          pm,
          (λ _. ground arith, largest),
        )
        | inr after ↦
            let least : m.id ≤ x.id = ground arith in
            inr (
              x,
              m ∷ rest,
              ap (insert_row later_plan x) same ∙ if-false _ _ _ after,
              inl refl,
              e,
              (λ _. omega arith, All-map (λ n f k. omega (arith, f k, least)) ms largest),
            )
      ]

  IsTop-skipped :
      (x : PurchaseMaterial) (ordered ms : List PurchaseMaterial)
      → p x ≡ false
      → IsTop ordered ms
      → IsTop ordered (x ∷ ms)
  IsTop-skipped x ordered ms e (inl (none_passes, empty)) = inl ((e, none_passes), empty)
  IsTop-skipped x ordered ms e (inr (m, rest, same, among, pm, largest)) =
      inr (m, rest, same, inr among, pm, (λ k. absurd (cc), largest))

  ordered-IsTop : (ms : List PurchaseMaterial) → IsTop (order_rows later_plan (keep p ms)) ms
  unfolding order_rows
  ordered-IsTop [] = inl (tt, refl)
  ordered-IsTop (x ∷ ms) = elim (Bool-cases (p x)) [
    | inl e ↦
        subst (λ (ks : List PurchaseMaterial). IsTop (order_rows later_plan ks) (x ∷ ms))
          (sym (keep-keeps p x ms e))
          (IsTop-inserted x (order_rows later_plan (keep p ms)) ms e (ordered-IsTop ms))
    | inr e ↦
        subst (λ (ks : List PurchaseMaterial). IsTop (order_rows later_plan ks) (x ∷ ms))
          (sym (keep-drops p x ms e))
          (IsTop-skipped x (order_rows later_plan (keep p ms)) ms e (ordered-IsTop ms))
  ]

coded-eq :
    (id : ℕ) (m : PurchaseMaterial) → (names_stock id m && is_some m.material_code) ≡ is_coded id m
coded-eq id m = links m.stock_material_id m.material_code
  where
    links :
        (link : Option ℕ) (code : Option Text)
        → ((elim link [ none ↦ false | some s ↦ s == id ]) && is_some code)
          ≡ is_coded_link id link code
    links none code = refl
    links (some s) none = elim (Bool-cases (s == id)) [ inl e ↦ rw e refl | inr e ↦ rw e refl ]
    links (some s) (some code) = elim (Bool-cases (s == id)) [
      | inl e ↦ rw e refl
      | inr e ↦ rw e refl
    ]

pub previous_code-IsNewestCode :
    (id : ℕ) (db : Db) → IsNewestCode id db.purchase_materials (previous_code id db)
previous_code-IsNewestCode id db = code_of (ordered-IsTop (is_coded id) db.purchase_materials)
  where
    ordered : List PurchaseMaterial
    ordered = order_rows later_plan (keep (is_coded id) db.purchase_materials)

    same : previous_code id db ≡ first_code ordered
    same =
        ap (λ (ms : List PurchaseMaterial). first_code (order_rows later_plan ms))
          (keep-ext (λ m. names_stock id m && is_some m.material_code) (is_coded id)
            db.purchase_materials (coded-eq id))

    code_of :
        IsTop (is_coded id) ordered db.purchase_materials
        → IsNewestCode id db.purchase_materials (previous_code id db)
    code_of (inl (none_passes, empty)) = inl (none_passes, same ∙ ap first_code empty)
    code_of (inr (m, rest, e, among, coded, largest)) =
        inr (m, among, coded, same ∙ ap first_code e, largest)
