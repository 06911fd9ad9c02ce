-- ===== src/Imports/Lite/Agree.antt =====
-- Rows of the lite inventory that agree, and rows as the database stores them.
use materials_manager.Base.{
  ◌≡◌, ◌⊎◌, inl, inr, refl, sym, subst, Text, text_eq, text_eq→eq, text_eq_refl, Option, none, some,
  Option-cases, some-inj, Bool, true, false, List, [], ◌∷◌, ◌&&◌, any, All, All-map, length, ap,
  Bool-cases, suc,
}
use materials_manager.Imports.Numbers.{Number, number_eq}
use materials_manager.Imports.Replaced.Deduplicated.{IsApart, IsHeld}
use materials_manager.Imports.Lite.{
  LiteInventory, optional_eq, same_row, store_quantity, store_row, store_rows,
}

-- Two cells are empty, or hold numbers that are equal.
abbrev pub SameQuantity : Option Number → Option Number → Type 0
SameQuantity none none = Unit
SameQuantity (some a) (some b) = number_eq a b ≡ true
SameQuantity _ _ = ⊥

-- Two rows have the same texts and the same quantity.
pub record Agree (a b : LiteInventory) : Type 0 where
  pub name : a.name ≡ b.name
  pub model_spec : a.model_spec ≡ b.model_spec
  pub unit_name : a.unit_name ≡ b.unit_name
  pub quantity : SameQuantity a.quantity b.quantity
  pub remark : a.remark ≡ b.remark

optional-eq : (a b : Option Text) → optional_eq text_eq a b ≡ true → a ≡ b
optional-eq none none h = refl
optional-eq none (some b) h = absurd (cc)
optional-eq (some a) none h = absurd (cc)
optional-eq (some a) (some b) h = ap some (text_eq→eq a b h)

optional_refl : (a : Option Text) → optional_eq text_eq a a ≡ true
optional_refl none = refl
optional_refl (some a) = text_eq_refl a

optional-same : (a b : Option Text) → a ≡ b → optional_eq text_eq a b ≡ true
optional-same a b e =
    subst (λ (x : Option Text). optional_eq text_eq a x ≡ true) e (optional_refl a)

text-same : (a b : Text) → a ≡ b → text_eq a b ≡ true
text-same a b e = subst (λ (x : Text). text_eq a x ≡ true) e (text_eq_refl a)

quantity-same : (a b : Option Number) → optional_eq number_eq a b ≡ true → SameQuantity a b
quantity-same none none h = tt
quantity-same none (some b) h = cc
quantity-same (some a) none h = cc
quantity-same (some a) (some b) h = h

same-quantity : (a b : Option Number) → SameQuantity a b → optional_eq number_eq a b ≡ true
same-quantity none none h = refl
same-quantity none (some b) h = absurd h
same-quantity (some a) none h = absurd h
same-quantity (some a) (some b) h = h

and_all :
    (a b c d e : Bool)
    → (a && (b && (c && (d && e)))) ≡ true
    → (a ≡ true) × (b ≡ true) × (c ≡ true) × (d ≡ true) × (e ≡ true)
and_all true true true true true h = (refl, refl, refl, refl, refl)
and_all false b c d e h = absurd (cc)
and_all true false c d e h = absurd (cc)
and_all true true false d e h = absurd (cc)
and_all true true true false e h = absurd (cc)
and_all true true true true false h = absurd (cc)

same_row-Agree : (a b : LiteInventory) → same_row a b ≡ true → Agree a b
same_row-Agree a b h =
    let (n, s, u, q, r) = and_all _ _ _ _ _ h in
    record {
      name = text_eq→eq a.name b.name n;
      model_spec = optional-eq a.model_spec b.model_spec s;
      unit_name = optional-eq a.unit_name b.unit_name u;
      quantity = quantity-same a.quantity b.quantity q;
      remark = optional-eq a.remark b.remark r;
    }

Agree-same_row : (a b : LiteInventory) → Agree a b → same_row a b ≡ true
Agree-same_row a b h =
    let n = text-same a.name b.name h.name in
    let s = optional-same a.model_spec b.model_spec h.model_spec in
    let u = optional-same a.unit_name b.unit_name h.unit_name in
    let q = same-quantity a.quantity b.quantity h.quantity in
    let r = optional-same a.remark b.remark h.remark in rw (n, s, u, q, r) refl

-- No row agrees with one before it, or with one of `seen`.
abbrev pub AreApart : List LiteInventory → List LiteInventory → Type 0
AreApart seen [] = Unit
AreApart seen (row ∷ rows) = All (λ s. ¬ Agree row s) seen × AreApart (row ∷ seen) rows

-- The row is in the table, or one that agrees with it.
abbrev pub IsRepresented : List LiteInventory → LiteInventory → Type 0
IsRepresented [] row = ⊥
IsRepresented (r ∷ rows) row = ((r ≡ row) ⊎ Agree row r) ⊎ IsRepresented rows row

-- The row is one of the table.
abbrev pub IsAmong : List LiteInventory → LiteInventory → Type 0
IsAmong [] row = ⊥
IsAmong (r ∷ rows) row = (r ≡ row) ⊎ IsAmong rows row

pub All-IsAmong : (rows : List LiteInventory) → All (IsAmong rows) rows
All-IsAmong [] = tt
All-IsAmong (row ∷ rows) =
    (inl refl, All-map (λ (r : LiteInventory) h. inr h) rows (All-IsAmong rows))

pub All-both :
    (P Q : LiteInventory → Type 0) (rows : List LiteInventory)
    → All P rows
    → All Q rows
    → All (λ r. P r × Q r) rows
All-both P Q [] h k = tt
All-both P Q (row ∷ rows) h k = ((h.0, k.0), All-both P Q rows h.1 k.1)

none_agrees :
    (row : LiteInventory) (seen : List LiteInventory)
    → any (same_row row) seen ≡ false
    → All (λ s. ¬ Agree row s) seen
none_agrees row [] h = tt
none_agrees row (s ∷ seen) h = elim (Bool-cases (same_row row s)) [
  | inl e ↦ let k = rw e at h in absurd (cc)
  | inr e ↦ let k = rw e at h in (λ g. let c = Agree-same_row row s g in cc, none_agrees row seen k)
]

pub apart-AreApart :
    (seen rows : List LiteInventory) → IsApart same_row seen rows → AreApart seen rows
apart-AreApart seen [] h = tt
apart-AreApart seen (row ∷ rows) h =
    (none_agrees row seen h.0, apart-AreApart (row ∷ seen) rows h.1)

pub held-IsRepresented :
    (table : List LiteInventory) (row : LiteInventory)
    → IsHeld same_row table row
    → IsRepresented table row
held-IsRepresented [] row h = h
held-IsRepresented (r ∷ rows) row (inl (inl e)) = inl (inl e)
held-IsRepresented (r ∷ rows) row (inl (inr e)) = inl (inr (same_row-Agree row r e))
held-IsRepresented (r ∷ rows) row (inr h) = inr (held-IsRepresented rows row h)

module _ (as_stored : Number → Option Number) where
  abbrev pub QuantityStored : Option Number → Option Number → Type 0
  QuantityStored none q = q ≡ none
  QuantityStored (some n) q = (m : Number) × (as_stored n ≡ some m) × (q ≡ some m)

  -- The row of the table has the texts of the row, and the quantity that the database stores for it.
  pub record IsStored (row stored : LiteInventory) : Type 0 where
    pub name : stored.name ≡ row.name
    pub model_spec : stored.model_spec ≡ row.model_spec
    pub unit_name : stored.unit_name ≡ row.unit_name
    pub quantity : QuantityStored row.quantity stored.quantity
    pub remark : stored.remark ≡ row.remark

  abbrev pub AreStored : List LiteInventory → List LiteInventory → Type 0
  AreStored [] [] = Unit
  AreStored (row ∷ rows) (s ∷ stored) = IsStored row s × AreStored rows stored
  AreStored _ _ = ⊥

  quantity-stored : (o q : Option Number) → store_quantity as_stored o ≡ some q → QuantityStored o q
  quantity-stored none q h = sym (some-inj none q h)
  quantity-stored (some n) q h = elim (Option-cases (as_stored n)) [
    | inl e ↦ let k = rw (store_quantity, e) at h in absurd (cc)
    | inr (m, e) ↦ let k = rw (store_quantity, e) at h in (m, e, sym (some-inj (some m) q k))
  ]

  row-IsStored : (row s : LiteInventory) → store_row as_stored row ≡ some s → IsStored row s
  row-IsStored row s h = elim (Option-cases (store_quantity as_stored row.quantity)) [
    | inl e ↦ let k = rw (store_row, e) at h in absurd (cc)
    | inr (q, e) ↦
        let k = rw (store_row, e) at h in
        subst (IsStored row) (some-inj (record row { quantity = q }) s k) (record {
          name = refl;
          model_spec = refl;
          unit_name = refl;
          quantity = quantity-stored row.quantity q e;
          remark = refl;
        })
  ]

  pub rows-AreStored :
      (rows stored : List LiteInventory)
      → store_rows as_stored rows ≡ some stored
      → AreStored rows stored
  unfolding store_rows
  rows-AreStored [] stored h = subst (AreStored []) (some-inj [] stored h) tt
  rows-AreStored (row ∷ rows) stored h = elim (Option-cases (store_row as_stored row)) [
    | inl e ↦ let k = rw (store_rows, e) at h in absurd (cc)
    | inr (r, e) ↦ elim (Option-cases (store_rows as_stored rows)) [
      | inl f ↦ let k = rw (store_rows, e, f) at h in absurd (cc)
      | inr (rs, f) ↦
          let k = rw (store_rows, e, f) at h in
          subst (AreStored (row ∷ rows)) (some-inj (r ∷ rs) stored k)
            (row-IsStored row r e, rows-AreStored rows rs f)
    ]
  ]

  pub length-AreStored :
      (rows stored : List LiteInventory) → AreStored rows stored → length stored ≡ length rows
  length-AreStored [] [] h = refl
  length-AreStored [] (s ∷ stored) h = absurd h
  length-AreStored (row ∷ rows) [] h = absurd h
  length-AreStored (row ∷ rows) (s ∷ stored) h = ap suc (length-AreStored rows stored h.1)
