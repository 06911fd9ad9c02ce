-- ===== src/Webhook/Delivery/Claims.antt =====
-- What `_claim_delivery` takes.
use materials_manager.Base.{
  ℕ, ◌+◌, ◌≡◌, refl, Option, none, some, true, false, List, [], ◌∷◌, arith, Option-cases, inl, inr,
  ◌⊎◌, subst, ap, map, contains, all_distinct, All, Text,
}
use materials_manager.Core.Calendar.{Time}
use materials_manager.Core.Tx.{pure}
use materials_manager.Core.Tx.Ensures.{
  Ensures, Ensures-bind, Ensures-gets, Ensures-pure, Ensures-modify, Keeps, keeps_rules, Keeps-gets,
  Keeps-or_key_error,
}
use materials_manager.Model.Webhook.{WebhookDelivery}
use materials_manager.Model.Database.{Db}
use materials_manager.Webhook.Delivery.{
  ClaimedDelivery, is_claimable, first_claimable, update_delivery, start_sending,
  decrypt_credential, claim_row, claim_delivery,
}

abbrev pub delivery_ids : List WebhookDelivery → List ℕ
delivery_ids = map (λ d. d.id)

-- The primary key of the table.
abbrev pub IsKeyed : Db → Type 0
IsKeyed db = all_distinct (delivery_ids db.webhook_deliveries) ≡ true

module _ (now : Time) where
  pub first-claimable :
      (ds : List WebhookDelivery) (d : WebhookDelivery)
      → first_claimable now ds ≡ some d
      → is_claimable now d ≡ true
  unfolding first_claimable
  first-claimable [] d h = cc
  first-claimable (x ∷ ds) d h = elim (Option-cases (first_claimable now ds)) [
    | inl e ↦ ground arith
    | inr (y, e) ↦ ground (arith, first-claimable ds y e)
  ]

  pub first-contains :
      (ds : List WebhookDelivery) (d : WebhookDelivery)
      → first_claimable now ds ≡ some d
      → contains d.id (delivery_ids ds) ≡ true
  unfolding first_claimable
  first-contains [] d h = cc
  first-contains (x ∷ ds) d h = elim (Option-cases (first_claimable now ds)) [
    | inl e ↦ ground arith
    | inr (y, e) ↦ ground (arith, first-contains ds y e)
  ]

-- Whose row it is, if the keys are distinct.
absent :
    (n : ℕ) (ds : List WebhookDelivery) (d : WebhookDelivery)
    → contains n (delivery_ids ds) ≡ false
    → All (λ e. e.id ≡ n → e ≡ d) ds
absent n [] d h = tt
absent n (x ∷ ds) d h = ((λ e. absurd (ground arith)), absent n ds d (ground arith))

distinct_id :
    (m n : ℕ) (ds : List WebhookDelivery)
    → contains m (delivery_ids ds) ≡ false
    → m ≡ n
    → contains n (delivery_ids ds) ≡ true
    → ⊥
distinct_id m n ds f e c = let g : contains n (delivery_ids ds) ≡ false = rw (← e) f in cc

pub older-cases :
    (now : Time) (x : WebhookDelivery) (ds : List WebhookDelivery) (d y : WebhookDelivery)
    → first_claimable now (x ∷ ds) ≡ some d
    → first_claimable now ds ≡ some y
    → (x ≡ d) ⊎ (y ≡ d)
unfolding first_claimable
older-cases now x ds d y h e = ground arith

pub first-only :
    (now : Time) (ds : List WebhookDelivery) (d : WebhookDelivery)
    → first_claimable now ds ≡ some d
    → all_distinct (delivery_ids ds) ≡ true
    → All (λ e. e.id ≡ d.id → e ≡ d) ds
unfolding first_claimable
first-only now [] d h k = tt
first-only now (x ∷ ds) d h k = elim (Option-cases (first_claimable now ds)) [
  | inl e ↦
      let same : x ≡ d = ground arith in
      ((λ _. same), absent d.id ds d (rw (← same) (ground arith)))
  | inr (y, e) ↦
      let c = first-contains now ds y e in
      let ih = first-only now ds y e (ground arith) in
      let fresh : contains x.id (delivery_ids ds) ≡ false = ground arith in
      let chosen : (x ≡ d) ⊎ (y ≡ d) = older-cases now x ds d y h e in
      elim chosen [
        | inl same ↦ ((λ _. same), absent d.id ds d (rw (← same) fresh))
        | inr same ↦ (
          (λ z. absurd (distinct_id x.id d.id ds fresh z (rw (← same) c))),
          subst (λ (z : WebhookDelivery). All (λ f. f.id ≡ z.id → f ≡ z) ds) same ih,
        )
      ]
]

-- What a claim has taken, and what it leaves.
pub record IsClaim (now : Time) (db : Db) (c : ClaimedDelivery) (db' : Db) : Type 0 where
  pub row : WebhookDelivery
  pub found : first_claimable now db.webhook_deliveries ≡ some row
  pub same_id : c.delivery_id ≡ row.id
  pub counted : c.attempts ≡ row.attempts + 1
  pub left : db' ≡ update_delivery row.id (start_sending now) db

abbrev pub ClaimLeaves : Time → Db → Option ClaimedDelivery → Db → Type 0
ClaimLeaves now db none db' = db' ≡ db
ClaimLeaves now db (some c) db' = IsClaim now db c db'

module _ (decrypt : Text → Option Text) (now : Time) (db : Db) where
  decrypt_credential-Keeps : (P : Db → Type 0) (s : Text) → Keeps P (decrypt_credential decrypt s)
  unfolding decrypt_credential
  decrypt_credential-Keeps P [] = search keeps_rules
  decrypt_credential-Keeps P (c ∷ s) = search keeps_rules

  claim_row-Ensures :
      (d : WebhookDelivery)
      → first_claimable now db.webhook_deliveries ≡ some d
      → Ensures (λ s. s ≡ db) (claim_row decrypt now d) (ClaimLeaves now db)
  unfolding claim_row
  claim_row-Ensures d found = Ensures-bind _ (Keeps-gets _) λ o.
      Ensures-bind _ (Keeps-or_key_error o) λ channel.
        Ensures-bind _ (decrypt_credential-Keeps _ _) λ url.
          Ensures-bind _ (decrypt_credential-Keeps _ _) λ secret.
            Ensures-bind (λ _ s. s ≡ update_delivery d.id (start_sending now) db)
              (Ensures-modify _ (λ s h. ap (update_delivery d.id (start_sending now)) h))
              λ _.
                Ensures-pure _ (λ s h. record {
                  row = d;
                  found = found;
                  same_id = refl;
                  counted = refl;
                  left = h;
                })

  abbrev Found : Option WebhookDelivery → Db → Type 0
  Found o s = (s ≡ db) × (first_claimable now db.webhook_deliveries ≡ o)

  after_search :
      (o : Option WebhookDelivery)
      → Ensures
          (Found o)
          (elim o [ none ↦ pure none | some d ↦ claim_row decrypt now d ])
          (ClaimLeaves now db)
  after_search none = Ensures-pure _ (λ s h. h.0)
  after_search (some d) = record { at = λ s h a s' e. (claim_row-Ensures d h.1).at s h.0 a s' e }

  pub claim_delivery-Ensures :
      Ensures (λ s. s ≡ db) (claim_delivery decrypt now) (ClaimLeaves now db)
  unfolding claim_delivery
  claim_delivery-Ensures = Ensures-bind Found (Ensures-gets _ (λ s h. (h, rw h refl))) after_search
