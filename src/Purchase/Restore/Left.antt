-- ===== src/Purchase/Restore/Left.antt =====
-- The clean-up of moved plans, beside what it should do.
use materials_manager.Base.{
  ℕ, suc, zero, ◌≡◌, refl, sym, ap, subst, ◌∙◌, inl, inr, Option, none, some, Bool, true, false,
  List, [], ◌∷◌, not, ◌==◌, ◌&&◌, ◌||◌, keep, map, contains, take, Bool-cases, ==→eq, any, Text,
  arith,
}
use materials_manager.Model.Purchase.{PurchaseMaterial, PurchaseRequestLine}
use materials_manager.Model.Database.{Db}
use materials_manager.Inventory.Validate.{sorted_set}
use materials_manager.Inventory.Ledger.Replayed.{contains-sorted_set}
use materials_manager.Purchase.Plans.{is_of_plan}
use materials_manager.Purchase.Records.{was_moved}
use materials_manager.Purchase.Restore.{has_number, is_candidate, candidate_ids, unbind}

-- A text with a character that is no space.
abbrev pub is_written : Text → Bool
is_written [] = false
is_written (c ∷ s) = not (c == 32) || is_written s

abbrev pub names_plan : ℕ → Option ℕ → Bool
names_plan id none = false
names_plan id (some m) = m == id

-- A record with a plan number has come from the plan with this id.
abbrev pub has_left : List PurchaseRequestLine → ℕ → Bool
has_left [] id = false
has_left (l ∷ ls) id =
    names_plan id l.purchase_material_id && is_written l.plan_no_snapshot || has_left ls id

written-any : (s : Text) → any (λ c. not (c == 32)) s ≡ is_written s
written-any [] = refl
written-any (c ∷ s) = ap (λ (b : Bool). not (c == 32) || b) (written-any s)

names-of_plan :
    (id : ℕ) (o : Option ℕ) → (elim o [ some m ↦ m == id | none ↦ false ]) ≡ names_plan id o
names-of_plan id none = refl
names-of_plan id (some m) = refl

line-left :
    (id : ℕ) (l : PurchaseRequestLine)
    → (is_of_plan id l && has_number l)
      ≡ (names_plan id l.purchase_material_id && is_written l.plan_no_snapshot)
line-left id l =
    ap (λ (b : Bool). b && has_number l) (names-of_plan id l.purchase_material_id)
    ∙ ap (λ (b : Bool). names_plan id l.purchase_material_id && b) (written-any l.plan_no_snapshot)

candidate-left :
    (ls : List PurchaseRequestLine) (m : PurchaseMaterial) → is_candidate ls m ≡ has_left ls m.id
candidate-left [] m = refl
candidate-left (l ∷ ls) m =
    ap (λ (b : Bool). b || is_candidate ls m) (line-left m.id l)
    ∙ ap
        (λ (b : Bool). names_plan m.id l.purchase_material_id && is_written l.plan_no_snapshot || b)
        (candidate-left ls m)

contains-left :
    (ls : List PurchaseRequestLine) (n : ℕ) (ms : List PurchaseMaterial)
    → contains n (map (λ m. m.id) (keep (is_candidate ls) ms)) ≡ true
    → has_left ls n ≡ true
contains-left ls n [] h = absurd (cc)
contains-left ls n (m ∷ ms) h = elim (Bool-cases (is_candidate ls m)) [
  | inl e ↦ elim (Bool-cases (n == m.id)) [
    | inl f ↦
        subst (λ (k : ℕ). has_left ls k ≡ true) (sym (==→eq n m.id f))
          (sym (candidate-left ls m) ∙ e)
    | inr f ↦ let k = rw (e, f) at h in contains-left ls n ms k
  ]
  | inr e ↦ let k = rw e at h in contains-left ls n ms k
]

-- A record that is unbound from another plan.
other_named :
    (n : ℕ) (ids : List ℕ) (o : Option ℕ)
    → contains n ids ≡ false
    → (elim o [ some m ↦ contains m ids | none ↦ false ]) ≡ true
    → names_plan n o ≡ false
other_named n ids none c h = refl
other_named n ids (some m) c h = elim (Bool-cases (m == n)) [
  | inl e ↦
      let k = subst (λ (x : ℕ). contains x ids ≡ true) (==→eq m n e) h in absurd (ground arith)
  | inr e ↦ e
]

unbind-left :
    (n : ℕ) (ids : List ℕ) (ls : List PurchaseRequestLine)
    → contains n ids ≡ false
    → has_left (map (unbind ids) ls) n ≡ has_left ls n
unbind-left n ids [] c = refl
unbind-left n ids (l ∷ ls) c = elim (Bool-cases (was_moved ids l)) [
  | inl e ↦
      let f = other_named n ids l.purchase_material_id c e in rw (e, f) (unbind-left n ids ls c)
  | inr e ↦ rw (e, unbind-left n ids ls c) refl
]

-- What is left over after the plans of `ids`, which have left, were deleted.
pub left_after :
    (ids : List ℕ) (ls : List PurchaseRequestLine) (ms : List PurchaseMaterial)
    → ((n : ℕ) → contains n ids ≡ true → has_left ls n ≡ true)
    → keep (λ m. not (has_left (map (unbind ids) ls) m.id)) (keep (λ m. not (contains m.id ids)) ms)
      ≡ keep (λ m. not (has_left ls m.id)) ms
left_after ids ls [] h = refl
left_after ids ls (m ∷ ms) h = elim (Bool-cases (contains m.id ids)) [
  | inl c ↦ rw (c, h m.id c) (left_after ids ls ms h)
  | inr c ↦ rw (c, unbind-left m.id ids ls c, left_after ids ls ms h) refl
]

take-nil : (k : ℕ) (xs : List ℕ) → take (suc k) xs ≡ [] → xs ≡ []
take-nil k [] h = refl
take-nil k (x ∷ xs) h = absurd (cc)

all_left :
    (ls : List PurchaseRequestLine) (ms : List PurchaseMaterial)
    → ((n : ℕ) → contains n (map (λ m. m.id) (keep (is_candidate ls) ms)) ≡ false)
    → keep (λ m. not (has_left ls m.id)) ms ≡ ms
all_left ls [] h = refl
all_left ls (m ∷ ms) h = elim (Bool-cases (is_candidate ls m)) [
  | inl e ↦ let k = rw e at h m.id in absurd (ground arith)
  | inr e ↦
      let f : has_left ls m.id ≡ false = sym (candidate-left ls m) ∙ e in
      rw (f, all_left ls ms (λ n. let k = rw e at h n in k)) refl
]

pub contains-take : (n k : ℕ) (xs : List ℕ) → contains n (take k xs) ≡ true → contains n xs ≡ true
contains-take n zero xs h = absurd (ground arith)
contains-take n (suc k) [] h = h
contains-take n (suc k) (x ∷ xs) h = elim (Bool-cases (n == x)) [
  | inl e ↦ rw e refl
  | inr e ↦ rw e (contains-take n k xs (ground arith))
]

module _ (db : Db) where
  abbrev found : List ℕ
  found = map (λ m. m.id) (keep (is_candidate db.purchase_request_lines) db.purchase_materials)

  pub none_left :
      candidate_ids db ≡ []
      → keep (λ m. not (has_left db.purchase_request_lines m.id)) db.purchase_materials
        ≡ db.purchase_materials
  unfolding candidate_ids
  none_left e =
      all_left db.purchase_request_lines db.purchase_materials (λ n.
        sym (contains-sorted_set n found) ∙ ap (contains n) (take-nil 49 (sorted_set found) e))

  pub candidate-has_left :
      (n : ℕ) → contains n (candidate_ids db) ≡ true → has_left db.purchase_request_lines n ≡ true
  unfolding candidate_ids
  candidate-has_left n h =
      contains-left db.purchase_request_lines n db.purchase_materials
        (sym (contains-sorted_set n found) ∙ contains-take n 50 (sorted_set found) h)
