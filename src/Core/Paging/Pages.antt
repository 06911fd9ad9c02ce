-- ===== src/Core/Paging/Pages.antt =====
-- The pages of a query put together, and which rows an ordered query has.
use mathlib.Core.List.{append_assoc, append-nil}
use native.Mathlib.Nat.{suc-mul}
use materials_manager.Base.{
  ℕ, zero, suc, ◌+◌, ◌-◌, ◌*◌, ◌≤◌, ◌≡◌, ap, sym, subst, ◌∙◌, Bool, List, [], ◌∷◌, ◌++◌, take, drop,
  length, All, Bool-cases, inl, inr, arith, take-append-drop, drop-drop, drop-all,
}
use materials_manager.Core.Paging.{insert_row, order_rows, page_of}

zero-add_sym : (n : ℕ) → n ≡ 0 + n
zero-add_sym n = omega arith

zero_times : (k : ℕ) → 0 * k ≡ 0
zero_times k = omega arith

minus_one : (p : ℕ) → suc p - 1 ≡ p
minus_one p = omega arith

module _ {A : Type 0} where
  -- The pages from `page` on, `n` of them.
  abbrev pub pages : ℕ → ℕ → ℕ → List A → List A
  pages zero page page_size rows = []
  pages (suc n) page page_size rows =
      page_of page page_size rows ++ pages n (suc page) page_size rows

  pages-rest :
      (n p k : ℕ) (rows : List A)
      → pages n (suc p) k rows ++ drop ((p + n) * k) rows ≡ drop (p * k) rows
  unfolding page_of
  pages-rest zero p k rows = ap (λ m. drop (m * k) rows) (omega arith)
  pages-rest (suc n) p k rows =
      ap
        (λ m.
          (take k (drop (m * k) rows) ++ pages n (suc (suc p)) k rows)
          ++ drop ((p + suc n) * k) rows)
        (minus_one p)
      ∙ append_assoc (take k (drop (p * k) rows)) (pages n (suc (suc p)) k rows) _
      ∙ ap (λ r. take k (drop (p * k) rows) ++ r)
          (ap (λ m. pages n (suc (suc p)) k rows ++ drop (m * k) rows) (omega arith)
            ∙ pages-rest n (suc p) k rows
            ∙ sym (drop-drop k (p * k) rows ∙ ap (λ m. drop m rows) (sym (suc-mul p k))))
      ∙ take-append-drop k (drop (p * k) rows)

  -- Enough pages, from the first on, are all the rows in their order.
  pub pages-all :
      (n page_size : ℕ) (rows : List A)
      → length rows ≤ n * page_size
      → pages n 1 page_size rows ≡ rows
  pages-all n page_size rows h =
      sym (append-nil (pages n 1 page_size rows))
      ∙ ap (λ r. pages n 1 page_size rows ++ r)
          (sym (
            drop-all ((0 + n) * page_size) rows
              (subst (λ m. length rows ≤ m * page_size) (zero-add_sym n) h)))
      ∙ pages-rest n 0 page_size rows
      ∙ ap (λ m. drop m rows) (zero_times page_size)

module _ {κ} {A : Type 0} (before : A → A → Bool) (P : A → Type κ) where
  pub All-insert_row : (x : A) (xs : List A) → P x → All P xs → All P (insert_row before x xs)
  All-insert_row x [] p h = (p, tt)
  All-insert_row x (y ∷ ys) p h = elim (Bool-cases (before y x)) [
    | inl e ↦ rw e (h.0, All-insert_row x ys p h.1)
    | inr e ↦ rw e (p, h)
  ]

  pub All-order_rows : (xs : List A) → All P xs → All P (order_rows before xs)
  unfolding order_rows
  All-order_rows [] h = tt
  All-order_rows (x ∷ xs) h = All-insert_row x (order_rows before xs) h.0 (All-order_rows xs h.1)
