-- ===== src/Purchase/Linked.antt =====
-- A record that names a plan names one that exists, whatever is moved, deleted or cleaned up.
pub mod Steps
use materials_manager.Base.{
  ℕ, suc, ◌≡◌, refl, ap, subst, ◌∙◌, inl, inr, Option, none, some, Bool, true, false, List, [], ◌∷◌,
  ◌++◌, not, ◌==◌, any, keep, map, contains, arith, All, Bool-cases, Option-cases, ==→eq,
}
use materials_manager.Core.Common.{validate_version}
use materials_manager.Core.Paging.Pages.{All-order_rows}
use materials_manager.Core.Tx.{ok}
use materials_manager.Core.Tx.Ensures.{
  Ensures-bind, Ensures-gets, Ensures-raise_if, Ensures-modify, Keeps, Keeps-pure, Keeps-raise_if,
  Keeps-gets,
}
use materials_manager.Model.Purchase.{PurchaseMaterial, PurchaseRequestLine}
use materials_manager.Model.Database.{Db, Env}
use materials_manager.Schemas.Purchase.{MovePurchasePlanRequest}
use materials_manager.Purchase.Plans.{is_of_plan, delete_purchase_material}
use materials_manager.Purchase.Records.{was_moved, by_id, new_record_lines, move_plans_to_record}
use materials_manager.Purchase.Restore.{unbind, candidate_ids, cleanup_moved_plans_once}
use materials_manager.Purchase.Restore.Cleanup.{plan_ids}

abbrev pub is_linked : List ℕ → PurchaseRequestLine → Bool
is_linked ids line = elim line.purchase_material_id [ none ↦ true | some m ↦ contains m ids ]

abbrev pub AreLinked : List ℕ → List PurchaseRequestLine → Type 0
AreLinked ids = All (λ l. is_linked ids l ≡ true)

abbrev pub IsLinked : Db → Type 0
IsLinked db = AreLinked (plan_ids db.purchase_materials) db.purchase_request_lines

contains-kept :
    (n : ℕ) (p : PurchaseMaterial → Bool) (ms : List PurchaseMaterial)
    → ((m : PurchaseMaterial) → (n == m.id) ≡ true → p m ≡ true)
    → contains n (plan_ids ms) ≡ true
    → contains n (plan_ids (keep p ms)) ≡ true
contains-kept n p [] h c = c
contains-kept n p (m ∷ ms) h c = elim (Bool-cases (n == m.id)) [
  | inl e ↦ rw (h m e, e) refl
  | inr e ↦ let ih = contains-kept n p ms h (ground arith) in ground (arith, ih)
]

removed-linked :
    (id : ℕ) (ms : List PurchaseMaterial) (l : PurchaseRequestLine)
    → is_of_plan id l ≡ false
    → is_linked (plan_ids ms) l ≡ true
    → is_linked (plan_ids (keep (λ m. not (m.id == id)) ms)) l ≡ true
removed-linked id ms l n h = elim (Option-cases l.purchase_material_id) [
  | inl e ↦ rw e refl
  | inr (m, e) ↦
      let here : contains m (plan_ids ms) ≡ true =
        subst
          (λ (o : Option ℕ). (elim o [ none ↦ true | some x ↦ contains x (plan_ids ms) ]) ≡ true) e
          h in
      let other : (m == id) ≡ false =
        subst (λ (o : Option ℕ). (elim o [ some x ↦ x == id | none ↦ false ]) ≡ false) e n in
      rw e (contains-kept m (λ x. not (x.id == id)) ms (λ x k. ground arith) here)
]

removed-AreLinked :
    (id : ℕ) (ms : List PurchaseMaterial) (ls : List PurchaseRequestLine)
    → any (is_of_plan id) ls ≡ false
    → AreLinked (plan_ids ms) ls
    → AreLinked (plan_ids (keep (λ m. not (m.id == id)) ms)) ls
removed-AreLinked id ms [] n h = tt
removed-AreLinked id ms (l ∷ ls) n h =
    (removed-linked id ms l (ground arith) h.0, removed-AreLinked id ms ls (ground arith) h.1)

unbound-linked :
    (ids : List ℕ) (ms : List PurchaseMaterial) (l : PurchaseRequestLine)
    → is_linked (plan_ids ms) l ≡ true
    → is_linked (plan_ids (keep (λ m. not (contains m.id ids)) ms)) (unbind ids l) ≡ true
unbound-linked ids ms l h = elim (Bool-cases (was_moved ids l)) [
  | inl w ↦ rw w refl
  | inr w ↦ elim (Option-cases l.purchase_material_id) [
    | inl e ↦ rw (w, e) refl
    | inr (m, e) ↦
        let here : contains m (plan_ids ms) ≡ true =
          subst
            (λ (o : Option ℕ). (elim o [ none ↦ true | some x ↦ contains x (plan_ids ms) ]) ≡ true)
            e h in
        let out : contains m ids ≡ false =
          subst (λ (o : Option ℕ). (elim o [ some x ↦ contains x ids | none ↦ false ]) ≡ false) e
            w in
        rw (w, e)
          (contains-kept m (λ x. not (contains x.id ids)) ms
            (λ x k. ap not (subst (λ (y : ℕ). contains y ids ≡ false) (==→eq m x.id k) out)) here)
  ]
]

unbound-AreLinked :
    (ids : List ℕ) (ms : List PurchaseMaterial) (ls : List PurchaseRequestLine)
    → AreLinked (plan_ids ms) ls
    → AreLinked (plan_ids (keep (λ m. not (contains m.id ids)) ms)) (map (unbind ids) ls)
unbound-AreLinked ids ms [] h = tt
unbound-AreLinked ids ms (l ∷ ls) h = (unbound-linked ids ms l h.0, unbound-AreLinked ids ms ls h.1)

named-exist :
    (p : PurchaseMaterial → Bool) (all_plans ms : List PurchaseMaterial)
    → All (λ m. contains m.id (plan_ids all_plans) ≡ true) ms
    → All (λ m. contains m.id (plan_ids all_plans) ≡ true) (keep p ms)
named-exist p all_plans [] h = tt
named-exist p all_plans (m ∷ ms) h = elim (Bool-cases (p m)) [
  | inl e ↦ rw e (h.0, named-exist p all_plans ms h.1)
  | inr e ↦ rw e (named-exist p all_plans ms h.1)
]

-- Whatever exists in a table exists in a longer one.
widened :
    (x : PurchaseMaterial) (all_plans ms : List PurchaseMaterial)
    → All (λ m. contains m.id (plan_ids all_plans) ≡ true) ms
    → All (λ m. contains m.id (plan_ids (x ∷ all_plans)) ≡ true) ms
widened x all_plans [] h = tt
widened x all_plans (m ∷ ms) h = (ground (arith, h.0), widened x all_plans ms h.1)

rows-exist : (ms : List PurchaseMaterial) → All (λ m. contains m.id (plan_ids ms) ≡ true) ms
rows-exist [] = tt
rows-exist (m ∷ ms) = (ground arith, widened m ms ms (rows-exist ms))

added-AreLinked :
    (id request_id : ℕ) (move : MovePurchasePlanRequest) (ids : List ℕ) (ms : List PurchaseMaterial)
    (ls : List PurchaseRequestLine)
    → All (λ m. contains m.id ids ≡ true) ms
    → AreLinked ids ls
    → AreLinked ids (new_record_lines id request_id move ms ++ ls)
unfolding new_record_lines
added-AreLinked id request_id move ids [] ls h k = k
added-AreLinked id request_id move ids (m ∷ ms) ls h k =
    (h.0, added-AreLinked (suc id) request_id move ids ms ls h.1 k)

validate_version-Keeps :
    (P : Db → Type 0) (expected : Option ℕ) (actual : ℕ)
    → Keeps P (validate_version expected actual)
unfolding validate_version
validate_version-Keeps P none actual = Keeps-pure tt
validate_version-Keeps P (some e) actual = Keeps-raise_if _ _

delete-Ensures :
    (item : PurchaseMaterial) (version : Option ℕ)
    → Keeps IsLinked (delete_purchase_material item version)
unfolding delete_purchase_material
delete-Ensures item version =
    Ensures-bind (λ _. IsLinked) (validate_version-Keeps IsLinked version item.version)
      λ _.
        Ensures-bind
          (λ used s. IsLinked s × (any (is_of_plan item.id) s.purchase_request_lines ≡ used))
          (Ensures-gets _ (λ s h. (h, refl)))
          λ used.
            Ensures-bind
              (λ _ s. IsLinked s × (any (is_of_plan item.id) s.purchase_request_lines ≡ false))
              (Ensures-raise_if used _ (λ s c h. (h.0, h.1 ∙ c)))
              λ _. Ensures-modify _ (λ s h.
                removed-AreLinked item.id s.purchase_materials s.purchase_request_lines h.1 h.0)

-- The plans that are moved exist.
abbrev From : List PurchaseMaterial → Db → Type 0
From materials s =
    IsLinked s × All (λ m. contains m.id (plan_ids s.purchase_materials) ≡ true) materials

move-Ensures :
    (env : Env) (material_ids : List ℕ) (move : MovePurchasePlanRequest)
    → Keeps IsLinked (move_plans_to_record env material_ids move)
unfolding move_plans_to_record
move-Ensures env material_ids move =
    Ensures-bind From
      (Ensures-gets _ (λ s h. (
        h,
        All-order_rows by_id _ _ (
            named-exist _ s.purchase_materials s.purchase_materials
              (rows-exist s.purchase_materials)),
      )))
      λ materials.
        Ensures-bind (λ _. From materials) (Keeps-raise_if _ _)
          λ _.
            Ensures-bind (λ _. From materials) (Keeps-raise_if _ _)
              λ _.
                Ensures-bind (λ _. From materials) (Keeps-gets _)
                  λ moved.
                    Ensures-bind (λ _. From materials) (Keeps-raise_if _ _)
                      λ _.
                        Ensures-bind (λ _. From materials) (Keeps-gets _)
                          λ request_id.
                            Ensures-bind (λ _. From materials) (Keeps-gets _)
                              λ line_id.
                                Ensures-bind (λ _. IsLinked)
                                  (Ensures-modify _ (λ s h.
                                    added-AreLinked line_id request_id move
                                      (plan_ids s.purchase_materials) materials
                                      s.purchase_request_lines h.1 h.0))
                                  λ _. Keeps-pure _

-- If every record that names a plan names one that exists, then so it is after plans were moved into
-- records.
pub move_plans_to_record-IsLinked :
    (env : Env) (material_ids : List ℕ) (move : MovePurchasePlanRequest) (db : Db)
    (lines : List PurchaseRequestLine) (db' : Db)
    → IsLinked db
    → move_plans_to_record env material_ids move db ≡ ok (lines, db')
    → IsLinked db'
move_plans_to_record-IsLinked env material_ids move db lines db' h e =
    (move-Ensures env material_ids move).at db h lines db' e

-- If every record that names a plan names one that exists, then so it is after a plan was deleted.
pub delete_purchase_material-IsLinked :
    (item : PurchaseMaterial) (version : Option ℕ) (db db' : Db)
    → IsLinked db
    → delete_purchase_material item version db ≡ ok (tt, db')
    → IsLinked db'
delete_purchase_material-IsLinked item version db db' h e =
    (delete-Ensures item version).at db h tt db' e

-- If every record that names a plan names one that exists, then so it is after a round of the
-- clean-up.
pub cleanup_moved_plans_once-IsLinked :
    (db : Db) → IsLinked db → IsLinked (cleanup_moved_plans_once db).1
unfolding cleanup_moved_plans_once
cleanup_moved_plans_once-IsLinked db h =
    unbound-AreLinked (candidate_ids db) db.purchase_materials db.purchase_request_lines h
