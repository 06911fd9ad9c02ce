-- ===== src/Purchase/Numbers/Fresh.antt =====
-- The number that `next_purchase_plan_no` gives is in no use.
use materials_manager.Base.{
  ℕ, suc, ◌+◌, ◌≤◌, ◌<◌, ◌≡◌, ◌≢◌, refl, sym, ap, subst, ◌∙◌, inl, inr, Text, Option, none, some,
  Bool, true, false, List, [], ◌∷◌, ◌++◌, ltb, keep, map, arith, All, Bool-cases, if◌then◌else◌,
}
use materials_manager.Core.Tx.{ok}
use materials_manager.Core.Tx.Ensures.{
  Ensures, Ensures-bind, Ensures-gets, Ensures-raise_if, Ensures-pure,
}
use materials_manager.Model.Purchase.{Date}
use materials_manager.Model.Database.{Db}
use materials_manager.Purchase.Numbers.{
  text_ltb, starts_with, max_text, last_segment, to_int, plan_prefix, numbers_of, next_index,
  next_purchase_plan_no,
}
use materials_manager.Purchase.Numbers.Digits.{to_int-three}
use materials_manager.Purchase.Numbers.Largest.{
  plan_number, IsNumber, IsLargest, last_segment-number, text_ltb-number, larger_some,
  max_text-IsLargest,
}

-- A text is no number of the list.
abbrev pub IsFree : Text → List Text → Type 0
IsFree number = All (λ s. s ≢ number)

number-differs : (d : Date) (a b : ℕ) → a < b → b ≤ 999 → plan_number d a ≢ plan_number d b
number-differs d a b h k e =
    let lower : text_ltb (plan_number d a) (plan_number d b) ≡ true =
      text_ltb-number d a b (omega (arith, h, k)) k ∙ ground (arith, h) in
    let same : text_ltb (plan_number d b) (plan_number d b) ≡ false =
      text_ltb-number d b b k k ∙ ground arith in
    absurd (false_of d a b e lower same)
  where
    false_of :
        (d : Date) (a b : ℕ)
        → plan_number d a ≡ plan_number d b
        → text_ltb (plan_number d a) (plan_number d b) ≡ true
        → text_ltb (plan_number d b) (plan_number d b) ≡ false
        → ⊥
    false_of d a b e l s =
        let z : text_ltb (plan_number d b) (plan_number d b) ≡ true =
          subst (λ (x : Text). text_ltb x (plan_number d b) ≡ true) e l in
        cc

above-IsFree :
    (d : Date) (m : ℕ) (ss : List Text)
    → suc m ≤ 999
    → All (λ s. (k : ℕ) × (k ≤ m) × (s ≡ plan_number d k)) ss
    → IsFree (plan_number d (suc m)) ss
above-IsFree d m [] h a = tt
above-IsFree d m (s ∷ ss) h a = (
  (λ e. number-differs d a.0.0 (suc m) (omega (arith, a.0.1)) h (sym a.0.2 ∙ e)),
  above-IsFree d m ss h a.1,
)

max_text-none : (ss : List Text) → max_text ss ≡ none → (number : Text) → IsFree number ss
unfolding max_text
max_text-none [] h number = tt
max_text-none (s ∷ ss) h number = absurd (larger_some s (max_text ss) h)

starts_with-append : (p s : Text) → starts_with p (p ++ s) ≡ true
starts_with-append [] s = refl
starts_with-append (c ∷ p) s = ground (arith, starts_with-append p s)

IsFree-of_keep :
    (p number : Text) (ss : List Text)
    → starts_with p number ≡ true
    → IsFree number (keep (starts_with p) ss)
    → IsFree number ss
IsFree-of_keep p number [] h f = tt
IsFree-of_keep p number (s ∷ ss) h f = elim (Bool-cases (starts_with p s)) [
  | inl c ↦
      let g : IsFree number (s ∷ keep (starts_with p) ss) =
        subst
          (λ (b : Bool).
            IsFree number (if b then s ∷ keep (starts_with p) ss else keep (starts_with p) ss))
          c f in
      (g.0, IsFree-of_keep p number ss h g.1)
  | inr c ↦
      let g : IsFree number (keep (starts_with p) ss) =
        subst
          (λ (b : Bool).
            IsFree number (if b then s ∷ keep (starts_with p) ss else keep (starts_with p) ss))
          c f in
      ((λ e. differs p s number c h e), IsFree-of_keep p number ss h g)
]
  where
    differs :
        (p s number : Text) → starts_with p s ≡ false → starts_with p number ≡ true → s ≡ number → ⊥
    differs p s number c h e =
        let z : starts_with p number ≡ false = subst (λ (x : Text). starts_with p x ≡ false) e c in
        cc

-- Every number that a plan or a record has.
abbrev pub all_numbers : Db → List Text
all_numbers db =
    map (λ m. m.plan_no) db.purchase_materials
    ++ map (λ l. l.plan_no_snapshot) db.purchase_request_lines

module _ (d : Date) (db : Db) (known : All (IsNumber d) (numbers_of (plan_prefix d) db)) where
  -- The next index: if it is small enough, its number is free.
  record IsNext (index : ℕ) (s : Db) : Type 0 where
    same : s ≡ db
    free : index ≤ 999 → IsFree (plan_number d index) (numbers_of (plan_prefix d) db)

  index_after :
      (m : Text) (s : Db) (a : ℕ) (s' : Db)
      → IsLargest d (numbers_of (plan_prefix d) db) m
      → s ≡ db
      → to_int (last_segment m) s ≡ ok (a, s')
      → IsNext (a + 1) s'
  index_after m s a s' l h e =
      let run : to_int (last_segment m) s ≡ ok (l.index, s) =
        ap (λ (t : Text). to_int t s)
          (ap last_segment l.written ∙ last_segment-number d l.index l.small)
        ∙ to_int-three l.index s l.small in
      let same_index : l.index ≡ a = cc in
      let same_db : s ≡ s' = cc in
      record {
        same = sym same_db ∙ h;
        free = λ small.
            subst (λ (n : ℕ). IsFree (plan_number d n) (numbers_of (plan_prefix d) db))
              (plus_one l.index a same_index)
              (above-IsFree d l.index (numbers_of (plan_prefix d) db)
                (omega (arith, small, same_index)) l.above);
      }
    where
      plus_one : (m a : ℕ) → m ≡ a → suc m ≡ a + 1
      plus_one m a h = omega (arith, h)

  next_index-IsNext :
      (previous : Option Text)
      → max_text (numbers_of (plan_prefix d) db) ≡ previous
      → Ensures (λ s. s ≡ db) (next_index previous) IsNext
  unfolding next_index
  next_index-IsNext none h = Ensures-pure 1 (λ s e. record {
    same = e;
    free = λ _. max_text-none (numbers_of (plan_prefix d) db) h (plan_number d 1);
  })
  next_index-IsNext (some m) h =
      let l = max_text-IsLargest d (numbers_of (plan_prefix d) db) m known h in
      Ensures-bind (λ a s. IsNext (a + 1) s)
        (record { at = λ s p a s' e. index_after m s a s' l p e })
        λ a. Ensures-pure (a + 1) (λ s q. q)

  next_purchase_plan_no-Ensures :
      Ensures
        (λ s. s ≡ db)
        (next_purchase_plan_no d)
        (λ number s. (s ≡ db) × IsNumber d number × IsFree number (numbers_of (plan_prefix d) db))
  unfolding next_purchase_plan_no
  next_purchase_plan_no-Ensures =
      Ensures-bind (λ previous s. (s ≡ db) × (max_text (numbers_of (plan_prefix d) db) ≡ previous))
        (Ensures-gets _
          (λ s h. (h, ap (λ (t : Db). max_text (numbers_of (plan_prefix d) t)) (sym h))))
        λ previous.
          Ensures-bind IsNext
            (record { at = λ s h a s' e. (next_index-IsNext previous h.1).at s h.0 a s' e })
            λ index.
              Ensures-bind (λ _ s. IsNext index s × (index ≤ 999))
                (Ensures-raise_if (ltb 999 index) _ (λ s c h. (h, ground (arith, c))))
                λ _. Ensures-pure (plan_number d index) (λ s h.
                  (h.0.same, record { index = index; small = h.1; written = refl }, h.0.free h.1))

-- If the numbers of the date that plans and records have are ones that the program gives, then a new
-- number is again such a number, no plan and no record has it, and the database is as it was.
pub next_purchase_plan_no_fresh :
    (d : Date) (db : Db) (number : Text) (db' : Db)
    → All (IsNumber d) (numbers_of (plan_prefix d) db)
    → next_purchase_plan_no d db ≡ ok (number, db')
    → IsNumber d number × IsFree number (all_numbers db) × (db' ≡ db)
next_purchase_plan_no_fresh d db number db' known e =
    let q = (next_purchase_plan_no-Ensures d db known).at db refl number db' e in
    let prefixed : starts_with (plan_prefix d) number ≡ true =
      ap (starts_with (plan_prefix d)) q.1.written ∙ starts_with-append (plan_prefix d) _ in
    (q.1, IsFree-of_keep (plan_prefix d) number (all_numbers db) prefixed q.2, q.0)
