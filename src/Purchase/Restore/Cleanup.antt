-- ===== src/Purchase/Restore/Cleanup.antt =====
-- What the loop of the clean-up leaves of the plans.
use materials_manager.Base.{
  ℕ, suc, zero, ◌≤◌, ◌<◌, ◌≡◌, refl, sym, ap, subst, ◌∙◌, inl, inr, ◌⊎◌, Bool, true, false, List,
  [], ◌∷◌, not, ◌==◌, keep, map, contains, length, arith, Bool-cases, Option-cases, ==→eq,
  if◌then◌else◌,
}
use materials_manager.Model.Purchase.{PurchaseMaterial, PurchaseRequestLine}
use materials_manager.Model.Database.{Db}
use materials_manager.Inventory.Validate.{sorted_set}
use materials_manager.Inventory.Ledger.Replayed.{contains-sorted_set}
use materials_manager.Purchase.Records.{was_moved}
use materials_manager.Purchase.Restore.Left.{
  has_left, left_after, none_left, candidate-has_left, contains-take,
}
use materials_manager.Purchase.Restore.{
  is_candidate, candidate_ids, unbind, delete_plans, cleanup_moved_plans_once, cleanup_moved_plans,
}

abbrev pub plan_ids : List PurchaseMaterial → List ℕ
plan_ids = map (λ m. m.id)

contains-keep :
    (n : ℕ) (p : PurchaseMaterial → Bool) (ms : List PurchaseMaterial)
    → contains n (plan_ids (keep p ms)) ≡ true
    → contains n (plan_ids ms) ≡ true
contains-keep n p [] h = h
contains-keep n p (m ∷ ms) h = elim (Bool-cases (p m)) [
  | inl e ↦ elim (Bool-cases (n == m.id)) [
    | inl f ↦ rw f refl
    | inr f ↦ rw f (contains-keep n p ms (ground arith))
  ]
  | inr e ↦ let ih = contains-keep n p ms (ground arith) in ground (arith, ih)
]

candidate-exists :
    (db : Db) (n : ℕ)
    → contains n (candidate_ids db) ≡ true
    → contains n (plan_ids db.purchase_materials) ≡ true
unfolding candidate_ids
candidate-exists db n h =
    let found = keep (is_candidate db.purchase_request_lines) db.purchase_materials in
    contains-keep n (is_candidate db.purchase_request_lines) db.purchase_materials (
      sym (contains-sorted_set n (plan_ids found))
      ∙ contains-take n 50 (sorted_set (plan_ids found)) h)

abbrev others : List ℕ → List PurchaseMaterial → List PurchaseMaterial
others ids = keep (λ m. not (contains m.id ids))

others-le : (ids : List ℕ) (ms : List PurchaseMaterial) → length (others ids ms) ≤ length ms
others-le ids [] = omega arith
others-le ids (m ∷ ms) = let ih = others-le ids ms in ground (arith, ih)

other_id :
    (n m : ℕ) (ids : List ℕ) → contains n ids ≡ true → contains m ids ≡ false → (n == m) ≡ false
other_id n m ids h c = elim (Bool-cases (n == m)) [
  | inl q ↦
      let z : contains n ids ≡ false =
        subst (λ (x : ℕ). contains x ids ≡ false) (sym (==→eq n m q)) c in
      absurd (ground arith)
  | inr q ↦ q
]

others-lt :
    (ids : List ℕ) (n : ℕ) (ms : List PurchaseMaterial)
    → contains n ids ≡ true
    → contains n (plan_ids ms) ≡ true
    → length (others ids ms) < length ms
others-lt ids n [] h k = absurd (ground arith)
others-lt ids n (m ∷ ms) h k = elim (Bool-cases (contains m.id ids)) [
  | inl c ↦ rw c (omega (arith, others-le ids ms))
  | inr c ↦
      let ne : (n == m.id) ≡ false = other_id n m.id ids h c in
      let ih = others-lt ids n ms h (ground arith) in rw c (omega (arith, ih))
]

none_moved : (l : PurchaseRequestLine) → was_moved [] l ≡ false
none_moved l = elim (Option-cases l.purchase_material_id) [
  | inl e ↦ rw e refl
  | inr (m, e) ↦ rw e refl
]

unbind-none : (ls : List PurchaseRequestLine) → map (unbind []) ls ≡ ls
unbind-none [] = refl
unbind-none (l ∷ ls) = rw (none_moved l, unbind-none ls) refl

others-none : (ms : List PurchaseMaterial) → others [] ms ≡ ms
others-none [] = refl
others-none (m ∷ ms) = ap (◌∷◌ m) (others-none ms)

delete_plans-none : (db : Db) → delete_plans [] db ≡ db
delete_plans-none db =
    rw (unbind-none db.purchase_request_lines, others-none db.purchase_materials) refl

ids-cases : (ns : List ℕ) → (ns ≡ []) ⊎ ((n : ℕ) × (ms : List ℕ) × (ns ≡ (n ∷ ms)))
ids-cases [] = inl refl
ids-cases (n ∷ ms) = inr (n, ms, refl)

-- One step of the loop.
round : ℕ → List ℕ → Db → Db
round fuel ids db =
    let rest = cleanup_moved_plans fuel (delete_plans ids db) in
    if length ids == 0 then delete_plans ids db else rest

cleanup-step :
    (fuel : ℕ) (db : Db) → cleanup_moved_plans (suc fuel) db ≡ round fuel (candidate_ids db) db
unfolding cleanup_moved_plans cleanup_moved_plans_once round
cleanup-step fuel db = refl

round-cons :
    (fuel n : ℕ) (ns : List ℕ) (db : Db)
    → round fuel (n ∷ ns) db ≡ cleanup_moved_plans fuel (delete_plans (n ∷ ns) db)
unfolding round
round-cons fuel n ns db =
    let z : (length (n ∷ ns) == 0) ≡ false = ground arith in rw (round, z) refl

-- With more fuel than there are plans, the clean-up leaves exactly the plans, in their order, that no
-- record with a plan number had come from.
pub cleanup_moved_plans_complete :
    (fuel : ℕ) (db : Db)
    → length db.purchase_materials < fuel
    → (cleanup_moved_plans fuel db).purchase_materials
      ≡ keep (λ m. not (has_left db.purchase_request_lines m.id)) db.purchase_materials
unfolding round
cleanup_moved_plans_complete zero db h = absurd (omega (arith, h))
cleanup_moved_plans_complete (suc fuel) db h = elim (ids-cases (candidate_ids db)) [
  | inl e ↦
      plans_of
        (cleanup-step fuel db ∙ ap (λ (ids : List ℕ). round fuel ids db) e ∙ delete_plans-none db)
      ∙ sym (none_left db e)
  | inr (n, ns, e) ↦
      let here : contains n (candidate_ids db) ≡ true = rw e (ground arith) in
      let fewer =
        others-lt (candidate_ids db) n db.purchase_materials here (candidate-exists db n here) in
      plans_of (
        cleanup-step fuel db ∙ ap (λ (ids : List ℕ). round fuel ids db) e ∙ round-cons fuel n ns db)
      ∙ cleanup_moved_plans_complete fuel (delete_plans (n ∷ ns) db) (
          omega (
            arith,
            h,
            subst
                (λ (ids : List ℕ).
                  length (others ids db.purchase_materials) < length db.purchase_materials)
                e fewer,
          ))
      ∙ left_after (n ∷ ns) db.purchase_request_lines db.purchase_materials
          (λ k c. candidate-has_left db k (rw e c))
]
  where
    plans_of : {a b : Db} → a ≡ b → a.purchase_materials ≡ b.purchase_materials
    plans_of e = ap (λ (d : Db). d.purchase_materials) e
