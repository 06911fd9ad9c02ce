-- ===== src/Webhook/Delivery/Settle.antt =====
-- Claiming and then finishing a delivery, row by row.
use materials_manager.Base.{
  ℕ, suc, zero, ◌+◌, ◌-◌, ◌≤◌, if◌then◌else◌, ◌<◌, ◌≡◌, refl, some, Bool, true, false, List, [],
  ◌∷◌, arith, Bool-cases, ==→eq, inl, inr, ap, ◌∙◌, ◌==◌, map, not, ◌&&◌, ◌||◌, leb, ltb, All, Text,
}
use materials_manager.Core.Calendar.{Time}
use materials_manager.Model.Webhook.{WebhookDelivery}
use materials_manager.Model.Database.{Db}
use materials_manager.Webhook.Delivery.{
  Outcome, is_pending, is_sending, succeed, give_up, retry_later, is_claimable, edit_delivery,
  start_sending, retry_minutes, finish_row,
}
use materials_manager.Webhook.Delivery.Claims.{IsKeyed, delivery_ids}

-- A row between two turns: not being sent, sent five times at most, and fewer times if it is to be
-- sent again.
abbrev pub is_resting : WebhookDelivery → Bool
is_resting d =
    not (is_sending d.status)
    && (leb d.attempts 5 && (not (is_pending d.status) || ltb d.attempts 5))

-- How often a resting row may still be sent.
abbrev pub row_budget : WebhookDelivery → ℕ
row_budget d = if is_pending d.status then 5 - d.attempts else 0

pub record IsQuiet (db : Db) : Type 0 where
  pub keyed : IsKeyed db
  pub resting : All (λ d. is_resting d ≡ true) db.webhook_deliveries

-- The outcome of an attempt that was counted, on a row with that count.
pub record IsFinish (attempts : ℕ) (edit : WebhookDelivery → WebhookDelivery) : Type 0 where
  pub same_id : (e : WebhookDelivery) → (edit e).id ≡ e.id
  pub rests : (e : WebhookDelivery) → e.attempts ≡ attempts → is_resting (edit e) ≡ true
  pub spends : (e : WebhookDelivery) → e.attempts ≡ attempts → row_budget (edit e) ≤ 5 - attempts

module _ (now : Time) (attempts : ℕ) (h : attempts ≤ 5) where
  succeed-IsFinish : (status : ℕ) (excerpt : Text) → IsFinish attempts (succeed now status excerpt)
  succeed-IsFinish status excerpt = record {
    same_id = λ e. refl;
    rests = λ e c. ground arith;
    spends = λ e c. ground arith;
  }

  give_up-IsFinish : (message : Text) → IsFinish attempts (give_up now message)
  give_up-IsFinish message = record {
    same_id = λ e. refl;
    rests = λ e c. ground arith;
    spends = λ e c. ground arith;
  }

retry_later-IsFinish :
    (now : Time) (attempts : ℕ) (message : Text) (delay : ℕ)
    → attempts < 5
    → IsFinish attempts (retry_later now message delay)
retry_later-IsFinish now attempts message delay h = record {
  same_id = λ e. refl;
  rests = λ e c. ground arith;
  spends = λ e c. ground arith;
}

-- `finish_row` has a result for every attempt that was counted, and leaves the row resting.
pub finish_row-IsFinish :
    (now : Time) (attempts : ℕ) (outcome : Outcome)
    → attempts ≤ 5
    → (edit : WebhookDelivery → WebhookDelivery) × (finish_row now attempts outcome ≡ some edit)
      × IsFinish attempts edit
unfolding finish_row retry_minutes
finish_row-IsFinish now attempts (Outcome.answered status excerpt) h =
    (succeed now status excerpt, refl, succeed-IsFinish now attempts h status excerpt)
finish_row-IsFinish now zero (Outcome.error message) h =
    (retry_later now message 180, refl, retry_later-IsFinish now 0 message 180 (omega arith))
finish_row-IsFinish now (suc zero) (Outcome.error message) h =
    (retry_later now message 1, refl, retry_later-IsFinish now 1 message 1 (omega arith))
finish_row-IsFinish now (suc (suc zero)) (Outcome.error message) h =
    (retry_later now message 5, refl, retry_later-IsFinish now 2 message 5 (omega arith))
finish_row-IsFinish now (suc (suc (suc zero))) (Outcome.error message) h =
    (retry_later now message 15, refl, retry_later-IsFinish now 3 message 15 (omega arith))
finish_row-IsFinish now (suc (suc (suc (suc zero)))) (Outcome.error message) h =
    (retry_later now message 60, refl, retry_later-IsFinish now 4 message 60 (omega arith))
finish_row-IsFinish now (suc (suc (suc (suc (suc zero))))) (Outcome.error message) h =
    (give_up now message, refl, give_up-IsFinish now 5 h message)
finish_row-IsFinish now (suc (suc (suc (suc (suc (suc n)))))) (Outcome.error message) h =
    absurd (omega (arith, h))

list_eq : {m n : ℕ} {ms ns : List ℕ} → m ≡ n → ms ≡ ns → (m ∷ ms) ≡ (n ∷ ns)
list_eq h k = cc

-- Claiming and then finishing, on one row.
abbrev pub settle :
    Time → ℕ → (WebhookDelivery → WebhookDelivery) → WebhookDelivery → WebhookDelivery
settle now id edit e = edit_delivery id edit (edit_delivery id (start_sending now) e)

module _ (now : Time) (d : WebhookDelivery) (edit : WebhookDelivery → WebhookDelivery) where
  pub settle-same :
      (e : WebhookDelivery)
      → (e.id == d.id) ≡ true
      → settle now d.id edit e ≡ edit (start_sending now e)
  settle-same e h = rw (h, h) refl

  pub settle-other : (e : WebhookDelivery) → (e.id == d.id) ≡ false → settle now d.id edit e ≡ e
  settle-other e h = rw (h, h) refl

  settle-rests_row :
      (e : WebhookDelivery)
      → IsFinish (d.attempts + 1) edit
      → (e.id ≡ d.id → e ≡ d)
      → is_resting e ≡ true
      → is_resting (settle now d.id edit e) ≡ true
  settle-rests_row e f u r = elim (Bool-cases (e.id == d.id)) [
    | inl h ↦
        let same = u (==→eq e.id d.id h) in
        rw (settle-same e h)
          (f.rests (start_sending now e) (ap (λ (x : WebhookDelivery). x.attempts + 1) same))
    | inr h ↦ rw (settle-other e h) r
  ]

  settle-same_id :
      (e : WebhookDelivery) → IsFinish (d.attempts + 1) edit → (settle now d.id edit e).id ≡ e.id
  settle-same_id e f = elim (Bool-cases (e.id == d.id)) [
    | inl h ↦ ap (λ (x : WebhookDelivery). x.id) (settle-same e h) ∙ f.same_id (start_sending now e)
    | inr h ↦ ap (λ (x : WebhookDelivery). x.id) (settle-other e h)
  ]

  pub settle-rests :
      (ds : List WebhookDelivery)
      → IsFinish (d.attempts + 1) edit
      → All (λ e. e.id ≡ d.id → e ≡ d) ds
      → All (λ e. is_resting e ≡ true) ds
      → All
          (λ e. is_resting e ≡ true)
          (map (edit_delivery d.id edit) (map (edit_delivery d.id (start_sending now)) ds))
  settle-rests [] f u r = tt
  settle-rests (e ∷ ds) f u r = (settle-rests_row e f u.0 r.0, settle-rests ds f u.1 r.1)

  pub settle-ids :
      (ds : List WebhookDelivery)
      → IsFinish (d.attempts + 1) edit
      → delivery_ids
          (map (edit_delivery d.id edit) (map (edit_delivery d.id (start_sending now)) ds))
        ≡ delivery_ids ds
  settle-ids [] f = refl
  settle-ids (e ∷ ds) f = list_eq (settle-same_id e f) (settle-ids ds f)

-- What may be claimed at rest waits to be sent.
pub claimable-pending :
    (now : Time) (d : WebhookDelivery)
    → is_claimable now d ≡ true
    → is_resting d ≡ true
    → is_pending d.status ≡ true
unfolding is_claimable
claimable-pending now d c r = ground arith

-- What may be claimed has been tried fewer than five times.
pub claimable-attempts :
    (now : Time) (d : WebhookDelivery)
    → is_claimable now d ≡ true
    → is_resting d ≡ true
    → d.attempts < 5
unfolding is_claimable
claimable-attempts now d c r = ground arith
