-- ===== src/Purchase/Restore/Removed.antt =====
-- What restoring a record to a plan does to the records.
use materials_manager.Base.{
  ℕ, ◌≡◌, refl, sym, ap, subst, ◌∙◌, inl, inr, Option, none, some, Bool, true, false, List, [], ◌∷◌,
  not, ◌==◌, ==→eq, any, keep, find, All, arith, Bool-cases, if◌then◌else◌,
}
use materials_manager.Core.Common.{validate_version}
use materials_manager.Core.Errors.{Failure}
use materials_manager.Core.Tx.{Tx, Result, ok, err, ◌>>=◌, modify, gets, pure}
use materials_manager.Core.Tx.Ensures.{
  Ensures, Ensures-bind, Ensures-gets, Ensures-modify, Ensures-pure, Ensures-or_raise, Keeps,
  Keeps-pure, Keeps-raise_if, Keeps-gets,
}
use materials_manager.Model.Purchase.{PurchaseMaterial, PurchaseRequest, PurchaseRequestLine}
use materials_manager.Model.Database.{Db}
use materials_manager.Purchase.Plans.{put_plan, add_plan, is_taken}
use materials_manager.Purchase.Restore.{
  rebuilt_plan, revived_plan, insert_plan, revive, is_sibling, remove_record, remove_request,
  bump_request, restore_purchase_record_to_plan,
}

found-id :
    (n : ℕ) (rs : List PurchaseRequest) (r : PurchaseRequest)
    → find (λ x. x.id == n) rs ≡ some r
    → r.id ≡ n
found-id n [] r h = cc
found-id n (x ∷ rs) r h = elim (Bool-cases (x.id == n)) [
  | inl c ↦
      let same : x ≡ r = ground arith in
      subst (λ (y : PurchaseRequest). y.id ≡ n) same (==→eq x.id n c)
  | inr c ↦ found-id n rs r (ground arith)
]

module _ (line : PurchaseRequestLine) where
  abbrev others : List PurchaseRequestLine → List PurchaseRequestLine
  others = keep (λ l. not (l.id == line.id))

  -- A record whose request has no other lines goes with its request.
  alone :
      (ls : List PurchaseRequestLine)
      → All (λ l. l.id ≡ line.id → l ≡ line) ls
      → any (is_sibling line) ls ≡ false
      → keep (λ l. not (l.purchase_request_id == line.purchase_request_id)) ls ≡ others ls
  alone [] k n = refl
  alone (l ∷ ls) k n = elim (Bool-cases (l.id == line.id)) [
    | inl c ↦
        let same : l ≡ line = k.0 (==→eq l.id line.id c) in
        let d : (l.purchase_request_id == line.purchase_request_id) ≡ true =
          subst
            (λ (x : PurchaseRequestLine).
              (x.purchase_request_id == line.purchase_request_id) ≡ true)
            (sym same) (ground arith) in
        rw (c, d) (alone ls k.1 (ground arith))
    | inr c ↦
        let d : (l.purchase_request_id == line.purchase_request_id) ≡ false = ground arith in
        rw (c, d) (ap (◌∷◌ l) (alone ls k.1 (ground arith)))
  ]

module _ (line : PurchaseRequestLine) (db : Db)
    (row : All (λ l. l.id ≡ line.id → l ≡ line) db.purchase_request_lines) where
  abbrev Same : Db → Type 0
  Same s = s.purchase_request_lines ≡ db.purchase_request_lines

  insert_plan-Keeps : (item : PurchaseMaterial) → Keeps Same (insert_plan item)
  unfolding insert_plan
  insert_plan-Keeps item = record {
    at = λ s h a s' e. inserted (is_taken item.plan_no s) s a s' h e;
  }
    where
      inserted :
          (taken : Bool) (s : Db) (a : PurchaseMaterial) (s' : Db)
          → s.purchase_request_lines ≡ db.purchase_request_lines
          → if◌then◌else◌ {A = Result (PurchaseMaterial × Db)} taken
              (err Failure.integrity_error)
              (ok (item, add_plan item s))
            ≡ ok (a, s')
          → s'.purchase_request_lines ≡ db.purchase_request_lines
      inserted true s a s' h e = cc
      inserted false s a s' h e =
          let added : add_plan item s ≡ s' = cc in
          ap (λ (t : Db). t.purchase_request_lines) (sym added) ∙ h

  revive-Keeps : Keeps Same (revive line)
  unfolding revive
  revive-Keeps = Ensures-bind (λ _. Same) (Keeps-gets _) revived
    where
      revived :
          (o : Option PurchaseMaterial)
          → Keeps
              (λ s. s.purchase_request_lines ≡ db.purchase_request_lines)
              (elim o as (λ _. Tx Db PurchaseMaterial) [
                | none ↦ gets (λ t. t.next_purchase_material_id) >>= λ id.
                    insert_plan (rebuilt_plan id line)
                | some m ↦ modify (put_plan (revived_plan m)) >>= λ _. pure (revived_plan m)
              ])
      revived none =
          Ensures-bind (λ _. Same) (Keeps-gets _) (λ id. insert_plan-Keeps (rebuilt_plan id line))
      revived (some m) = Ensures-bind (λ _. Same) (Ensures-modify _ (λ s h. h)) (λ _. Keeps-pure _)

  version-Keeps : (P : Db → Type 0) (v : Option ℕ) (n : ℕ) → Keeps P (validate_version v n)
  unfolding validate_version
  version-Keeps P none n = Keeps-pure tt
  version-Keeps P (some e) n = Keeps-raise_if _ _

  abbrev Removed : Db → Type 0
  Removed s = s.purchase_request_lines ≡ others line db.purchase_request_lines

  remove-Ensures :
      (id : ℕ) (other : Bool)
      → id ≡ line.purchase_request_id
      → Ensures
          (λ s. Same s × (any (is_sibling line) db.purchase_request_lines ≡ other))
          (elim other as (λ _. Tx Db (Unit {0})) [
            | false ↦ modify (remove_request id)
            | true ↦ modify (λ t. remove_record line (bump_request id t))
          ])
          (λ _. Removed)
  remove-Ensures id true same = Ensures-modify _ (λ s h. ap (others line) h.0)
  remove-Ensures id false same = Ensures-modify _ (λ s h.
      ap (λ (n : ℕ). keep (λ l. not (l.purchase_request_id == n)) s.purchase_request_lines) same
      ∙ ap (keep (λ l. not (l.purchase_request_id == line.purchase_request_id))) h.0
      ∙ alone line db.purchase_request_lines row h.1)

  restore-Ensures :
      (version : Option ℕ)
      → Ensures (λ s. s ≡ db) (restore_purchase_record_to_plan line version) (λ _. Removed)
  unfolding restore_purchase_record_to_plan
  restore-Ensures version =
      Ensures-bind
        (λ o s. Same s × (find (λ r. r.id == line.purchase_request_id) db.purchase_requests ≡ o))
        (Ensures-gets _ (λ s h. (
          ap (λ (t : Db). t.purchase_request_lines) h,
          ap (λ (t : Db). find (λ r. r.id == line.purchase_request_id) t.purchase_requests) (sym h),
        )))
        λ o.
          Ensures-bind (λ r s. Same s × (r.id ≡ line.purchase_request_id))
            (Ensures-or_raise o _ (λ r s e h.
              (h.0, found-id line.purchase_request_id db.purchase_requests r (h.1 ∙ e))))
            λ r. record { at = λ s h a s' e. (rest r h.1).at s h.0 a s' e }
    where
      rest :
          (r : PurchaseRequest)
          → r.id ≡ line.purchase_request_id
          → Ensures Same
              (validate_version version r.version >>= λ _. revive line >>= λ material.
                gets (λ t. any (is_sibling line) t.purchase_request_lines) >>= λ other.
                (elim other as (λ _. Tx Db (Unit {0})) [
                  | false ↦ modify (remove_request r.id)
                  | true ↦ modify (λ t. remove_record line (bump_request r.id t))
                ])
                >>= λ _. pure material)
              (λ _. Removed)
      rest r same =
          Ensures-bind (λ _. Same) (version-Keeps Same version r.version)
            λ _.
              Ensures-bind (λ _. Same) revive-Keeps
                λ material.
                  Ensures-bind
                    (λ other s. Same s × (any (is_sibling line) db.purchase_request_lines ≡ other))
                    (Ensures-gets _ (λ s h. (h, ap (any (is_sibling line)) (sym h))))
                    λ other.
                      Ensures-bind (λ _. Removed) (remove-Ensures r.id other same)
                        λ _. Ensures-pure material (λ s h. h)

-- If a record that is a row of the table is restored to a plan, then exactly that record is gone and
-- the others are as they were, whether or not its request had other lines.
pub restore_purchase_record_to_plan-removes :
    (line : PurchaseRequestLine) (version : Option ℕ) (db : Db) (material : PurchaseMaterial)
    (db' : Db)
    → All (λ l. l.id ≡ line.id → l ≡ line) db.purchase_request_lines
    → restore_purchase_record_to_plan line version db ≡ ok (material, db')
    → db'.purchase_request_lines ≡ keep (λ l. not (l.id == line.id)) db.purchase_request_lines
restore_purchase_record_to_plan-removes line version db material db' row e =
    (restore-Ensures line db row version).at db refl material db' e
