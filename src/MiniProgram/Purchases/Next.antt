-- ===== src/MiniProgram/Purchases/Next.antt =====
-- The next plan of a detail is the next one of the list.
use materials_manager.Base.{
  All-keep, ℕ, ◌≡◌, ◌≢◌, ◌≤◌, refl, ap, sym, ◌∙◌, subst, Text, Option, none, some, Bool, true,
  false, List, [], ◌∷◌, ◌++◌, ◌&&◌, ◌==◌, ==-refl, ==→eq, ltb, find, keep, keep-drops, keep-keeps,
  find-skips, find-hits, keep-ext, All, Bool-cases, inl, inr, arith, if◌then◌else◌,
}
use materials_manager.Core.Paging.{order_rows, contains_any, split_or_search_terms}
use materials_manager.Core.Paging.Pages.{All-order_rows}
use materials_manager.Core.Tx.{ok, actions}
use materials_manager.Model.Purchase.{PurchaseMaterial}
use materials_manager.Model.Database.{Db}
use materials_manager.MiniProgram.Purchases.{
  is_open, newer_plan, plan_query, first_id, next_plan_id, detail_read, purchase_plan_detail,
}
use materials_manager.MiniProgram.Purchases.Ordered.{
  IsAtMost, IsDescending, IsOther, IsKeyed, order_rows-IsDescending, order_rows-IsKeyed,
  keep-IsKeyed, keep-order_rows,
}

abbrev below : ℕ → PurchaseMaterial → Bool
below id m = ltb m.id id

-- The plan in the middle of a list.
All-middle :
    (P : PurchaseMaterial → Type 0) (pre : List PurchaseMaterial) (item : PurchaseMaterial)
    (post : List PurchaseMaterial)
    → All P (pre ++ item ∷ post)
    → P item
All-middle P [] item post h = h.0
All-middle P (x ∷ pre) item post h = All-middle P pre item post h.1

keep-below_each :
    (item : PurchaseMaterial) (xs : List PurchaseMaterial)
    → All (IsAtMost item) xs
    → All (IsOther item) xs
    → keep (below item.id) xs ≡ xs
keep-below_each item [] h o = refl
keep-below_each item (x ∷ xs) h o =
    keep-keeps (below item.id) x xs (smaller x.id item.id h.0 o.0)
    ∙ ap (λ r. x ∷ r) (keep-below_each item xs h.1 o.1)
  where
    smaller : (a b : ℕ) → a ≤ b → a ≢ b → ltb a b ≡ true
    smaller a b le ne = elim (Bool-cases (a == b)) [
      | inl e ↦ absurd (ne (==→eq a b e))
      | inr e ↦ ground (arith, le, e)
    ]

keep-below :
    (pre : List PurchaseMaterial) (item : PurchaseMaterial) (post : List PurchaseMaterial)
    → IsDescending (pre ++ item ∷ post)
    → IsKeyed (pre ++ item ∷ post)
    → keep (below item.id) (pre ++ item ∷ post) ≡ post
keep-below [] item post d k =
    let e : below item.id item ≡ false = ground arith in
    keep-drops (below item.id) item post e ∙ keep-below_each item post d.0 k.0
keep-below (x ∷ pre) item post d k =
    let least : item.id ≤ x.id = All-middle (IsAtMost x) pre item post d.0 in
    let e : below item.id x ≡ false = ground (arith, least) in
    keep-drops (below item.id) x (pre ++ item ∷ post) e ∙ keep-below pre item post d.1 k.1

keep-and :
    (p q : PurchaseMaterial → Bool) (xs : List PurchaseMaterial)
    → keep (λ m. p m && q m) xs ≡ keep q (keep p xs)
keep-and p q [] = refl
keep-and p q (x ∷ xs) = elim (Bool-cases (p x)) [
  | inl e ↦
      ap (λ b. if b && q x then x ∷ keep (λ m. p m && q m) xs else keep (λ m. p m && q m) xs) e
      ∙ ap (λ r. if q x then x ∷ r else r) (keep-and p q xs)
      ∙ sym (ap (keep q) (keep-keeps p x xs e))
  | inr e ↦
      ap (λ b. if b && q x then x ∷ keep (λ m. p m && q m) xs else keep (λ m. p m && q m) xs) e
      ∙ keep-and p q xs
      ∙ sym (ap (keep q) (keep-drops p x xs e))
]

module _ (db : Db) where
  abbrev open_rows : List PurchaseMaterial
  open_rows = order_rows newer_plan (keep (is_open db) db.purchase_materials)

  abbrev sought : List PurchaseMaterial → PurchaseMaterial → Option PurchaseMaterial
  sought rows m = find (λ k. k.id == m.id && is_open db k) rows

  found_behind :
      (x : PurchaseMaterial) (xs ms : List PurchaseMaterial)
      → All (IsOther x) ms
      → All (λ m. sought xs m ≡ some m) ms
      → All (λ m. sought (x ∷ xs) m ≡ some m) ms
  found_behind x xs [] o h = tt
  found_behind x xs (m ∷ ms) o h =
      let e : (x.id == m.id && is_open db x) ≡ false = apart x.id m.id (is_open db x) o.0 in
      (find-skips (λ k. k.id == m.id && is_open db k) x xs e ∙ h.0, found_behind x xs ms o.1 h.1)
    where
      apart : (a b : ℕ) (o' : Bool) → b ≢ a → (a == b && o') ≡ false
      apart a b o' ne = elim (Bool-cases (a == b)) [
        | inl e ↦ absurd (ne (sym (==→eq a b e)))
        | inr e ↦ rw e refl
      ]

  keep-found :
      (xs : List PurchaseMaterial)
      → IsKeyed xs
      → All (λ m. sought xs m ≡ some m) (keep (is_open db) xs)
  keep-found [] h = tt
  keep-found (x ∷ xs) h =
      let later =
        found_behind x xs (keep (is_open db) xs) (All-keep (IsOther x) (is_open db) xs h.0)
          (keep-found xs h.1) in
      elim (Bool-cases (is_open db x)) [
        | inl e ↦
            subst (All (λ m. sought (x ∷ xs) m ≡ some m)) (sym (keep-keeps (is_open db) x xs e)) (
              find-hits (λ k. k.id == x.id && is_open db k) x xs (both x.id (is_open db x) e),
              later,
            )
        | inr e ↦
            subst (All (λ m. sought (x ∷ xs) m ≡ some m)) (sym (keep-drops (is_open db) x xs e))
              later
      ]
    where
      both : (a : ℕ) (o : Bool) → o ≡ true → (a == a && o) ≡ true
      both a o e = rw (==-refl a) e

  next-below :
      (pre : List PurchaseMaterial) (item : PurchaseMaterial) (post : List PurchaseMaterial)
      → IsKeyed db.purchase_materials
      → open_rows ≡ pre ++ item ∷ post
      → next_plan_id item.id db ≡ first_id post
  unfolding next_plan_id
  next-below pre item post k e =
      ap (λ r. first_id (order_rows newer_plan r))
        (keep-and (is_open db) (below item.id) db.purchase_materials)
      ∙ ap first_id (
          sym (keep-order_rows (below item.id) (keep (is_open db) db.purchase_materials))
          ∙ ap (keep (below item.id)) e
          ∙ keep-below pre item post
              (subst IsDescending e
                (order_rows-IsDescending (keep (is_open db) db.purchase_materials)))
              (subst IsKeyed e (
                order_rows-IsKeyed (keep (is_open db) db.purchase_materials)
                  (keep-IsKeyed (is_open db) db.purchase_materials k))))

and_true : (b : Bool) → (b && true) ≡ b
and_true true = refl
and_true false = refl

module _ (contains trimmed_is : Text → Text → Bool) (db : Db) where
  -- Where the list without filters has a plan, its detail is found, and the next plan of the detail is the
  -- one that stands behind it in the list, or none at the end. `id` is a key of the plans.
  pub purchase_plan_detail-next :
      (pre : List PurchaseMaterial) (item : PurchaseMaterial) (post : List PurchaseMaterial)
      → IsKeyed db.purchase_materials
      → plan_query contains trimmed_is none none none db ≡ pre ++ item ∷ post
      → purchase_plan_detail item.id db ≡ ok (detail_read item (first_id post), db)
  unfolding plan_query contains_any split_or_search_terms purchase_plan_detail actions
  purchase_plan_detail-next pre item post k e =
      let rows : open_rows db ≡ pre ++ item ∷ post =
        sym (
          ap (order_rows newer_plan) (
            keep-ext (λ m. is_open db m && true) (is_open db) db.purchase_materials
              (λ m. and_true (is_open db m))))
        ∙ e in
      let found =
        All-middle (λ m. sought db db.purchase_materials m ≡ some m) pre item post
          (subst (All (λ m. sought db db.purchase_materials m ≡ some m)) rows
            (All-order_rows newer_plan _ _ (keep-found db db.purchase_materials k))) in
      rw found (ap (λ o. ok (detail_read item o, db)) (next-below db pre item post k rows))
