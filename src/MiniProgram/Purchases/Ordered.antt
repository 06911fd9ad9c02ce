-- ===== src/MiniProgram/Purchases/Ordered.antt =====
-- Plans in the order of the list: what is left of them below a test, and that their ids stay distinct.
use materials_manager.Base.{
  All-keep, ◌≡◌, ◌≢◌, ◌≤◌, refl, ap, sym, ◌∙◌, subst, Bool, true, false, List, [], ◌∷◌, keep,
  keep-drops, keep-keeps, All, All-map, Bool-cases, inl, inr, arith, if◌then◌else◌, if-true,
  if-false,
}
use materials_manager.Core.Paging.{insert_row, order_rows}
use materials_manager.Core.Paging.Pages.{All-insert_row, All-order_rows}
use materials_manager.Model.Purchase.{PurchaseMaterial}
use materials_manager.MiniProgram.Purchases.{newer_plan}

abbrev pub IsAtMost : PurchaseMaterial → PurchaseMaterial → Type 0
IsAtMost x y = y.id ≤ x.id

abbrev pub IsDescending : List PurchaseMaterial → Type 0
IsDescending [] = Unit
IsDescending (x ∷ xs) = All (IsAtMost x) xs × IsDescending xs

abbrev pub IsOther : PurchaseMaterial → PurchaseMaterial → Type 0
IsOther x y = y.id ≢ x.id

-- `id` is a key of the table.
abbrev pub IsKeyed : List PurchaseMaterial → Type 0
IsKeyed [] = Unit
IsKeyed (x ∷ xs) = All (IsOther x) xs × IsKeyed xs

insert_row-IsDescending :
    (x : PurchaseMaterial) (ys : List PurchaseMaterial)
    → IsDescending ys
    → IsDescending (insert_row newer_plan x ys)
insert_row-IsDescending x [] h = (tt, tt)
insert_row-IsDescending x (y ∷ ys) h = elim (Bool-cases (newer_plan y x)) [
  | inl e ↦ rw e (
    All-insert_row newer_plan (IsAtMost y) x ys (ground arith) h.0,
    insert_row-IsDescending x ys h.1,
  )
  | inr e ↦
      let least : y.id ≤ x.id = ground arith in
      rw e ((least, All-map (λ z k. omega (arith, k, least)) ys h.0), h)
]

pub order_rows-IsDescending : (xs : List PurchaseMaterial) → IsDescending (order_rows newer_plan xs)
unfolding order_rows
order_rows-IsDescending [] = tt
order_rows-IsDescending (x ∷ xs) =
    insert_row-IsDescending x (order_rows newer_plan xs) (order_rows-IsDescending xs)

insert_row-IsKeyed :
    (x : PurchaseMaterial) (ys : List PurchaseMaterial)
    → All (IsOther x) ys
    → IsKeyed ys
    → IsKeyed (insert_row newer_plan x ys)
insert_row-IsKeyed x [] o h = (tt, tt)
insert_row-IsKeyed x (y ∷ ys) o h = elim (Bool-cases (newer_plan y x)) [
  | inl e ↦ rw e (
    All-insert_row newer_plan (IsOther y) x ys (λ s. o.0 (sym s)) h.0,
    insert_row-IsKeyed x ys o.1 h.1,
  )
  | inr e ↦ rw e (o, h)
]

pub order_rows-IsKeyed :
    (xs : List PurchaseMaterial) → IsKeyed xs → IsKeyed (order_rows newer_plan xs)
unfolding order_rows
order_rows-IsKeyed [] h = tt
order_rows-IsKeyed (x ∷ xs) h =
    insert_row-IsKeyed x (order_rows newer_plan xs) (All-order_rows newer_plan (IsOther x) xs h.0)
      (order_rows-IsKeyed xs h.1)

pub keep-IsKeyed :
    (p : PurchaseMaterial → Bool) (xs : List PurchaseMaterial) → IsKeyed xs → IsKeyed (keep p xs)
keep-IsKeyed p [] h = tt
keep-IsKeyed p (x ∷ xs) h = elim (Bool-cases (p x)) [
  | inl e ↦
      subst IsKeyed (sym (keep-keeps p x xs e))
        (All-keep (IsOther x) p xs h.0, keep-IsKeyed p xs h.1)
  | inr e ↦ subst IsKeyed (sym (keep-drops p x xs e)) (keep-IsKeyed p xs h.1)
]

insert_row-first :
    (x : PurchaseMaterial) (ys : List PurchaseMaterial)
    → All (IsAtMost x) ys
    → insert_row newer_plan x ys ≡ x ∷ ys
insert_row-first x [] h = refl
insert_row-first x (y ∷ ys) h =
    let e : newer_plan y x ≡ false = ground (arith, h.0) in if-false _ _ _ e

insert_row-later :
    (x y : PurchaseMaterial) (ys : List PurchaseMaterial)
    → newer_plan y x ≡ true
    → insert_row newer_plan x (y ∷ ys) ≡ y ∷ insert_row newer_plan x ys
insert_row-later x y ys e = if-true _ _ _ e

module _ (p : PurchaseMaterial → Bool) (x : PurchaseMaterial) where
  keep-insert_row :
      (ys : List PurchaseMaterial)
      → IsDescending ys
      → p x ≡ true
      → keep p (insert_row newer_plan x ys) ≡ insert_row newer_plan x (keep p ys)
  keep-insert_row [] h t = keep-keeps p x [] t
  keep-insert_row (y ∷ ys) h t = elim (Bool-cases (newer_plan y x)) [
    | inl e ↦ ap (keep p) (insert_row-later x y ys e) ∙ (elim (Bool-cases (p y)) [
      | inl k ↦
          keep-keeps p y (insert_row newer_plan x ys) k
          ∙ ap (λ r. y ∷ r) (keep-insert_row ys h.1 t)
          ∙ sym (
              ap (insert_row newer_plan x) (keep-keeps p y ys k)
              ∙ insert_row-later x y (keep p ys) e)
      | inr k ↦
          keep-drops p y (insert_row newer_plan x ys) k
          ∙ keep-insert_row ys h.1 t
          ∙ sym (ap (insert_row newer_plan x) (keep-drops p y ys k))
    ])
    | inr e ↦
        let least : y.id ≤ x.id = ground arith in
        let all : All (IsAtMost x) (y ∷ ys) =
          (least, All-map (λ z k. omega (arith, k, least)) ys h.0) in
        ap (keep p) (insert_row-first x (y ∷ ys) all)
        ∙ keep-keeps p x (y ∷ ys) t
        ∙ sym (insert_row-first x (keep p (y ∷ ys)) (All-keep (IsAtMost x) p (y ∷ ys) all))
  ]

  keep-insert_row_dropped :
      (ys : List PurchaseMaterial) → p x ≡ false → keep p (insert_row newer_plan x ys) ≡ keep p ys
  keep-insert_row_dropped [] f = keep-drops p x [] f
  keep-insert_row_dropped (y ∷ ys) f = elim (Bool-cases (newer_plan y x)) [
    | inl e ↦
        ap (keep p) (insert_row-later x y ys e)
        ∙ ap (λ r. if p y then y ∷ r else r) (keep-insert_row_dropped ys f)
    | inr e ↦ ap (keep p) (if-false _ _ _ e) ∙ keep-drops p x (y ∷ ys) f
  ]

pub keep-order_rows :
    (p : PurchaseMaterial → Bool) (xs : List PurchaseMaterial)
    → keep p (order_rows newer_plan xs) ≡ order_rows newer_plan (keep p xs)
unfolding order_rows
keep-order_rows p [] = refl
keep-order_rows p (x ∷ xs) = elim (Bool-cases (p x)) [
  | inl e ↦
      keep-insert_row p x (order_rows newer_plan xs) (order_rows-IsDescending xs) e
      ∙ ap (insert_row newer_plan x) (keep-order_rows p xs)
      ∙ sym (ap (order_rows newer_plan) (keep-keeps p x xs e))
  | inr e ↦
      keep-insert_row_dropped p x (order_rows newer_plan xs) e
      ∙ keep-order_rows p xs
      ∙ sym (ap (order_rows newer_plan) (keep-drops p x xs e))
]
