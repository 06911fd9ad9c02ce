-- ===== src/Webhook/Delivery/Budget.antt =====
-- How often the rows of the table may still be sent, and how a turn of the worker lowers it.
use materials_manager.Base.{
  ℕ, suc, ◌+◌, ◌-◌, ◌≤◌, ◌<◌, ◌≡◌, refl, Option, Bool, true, false, List, [], ◌∷◌, arith,
  Bool-cases, inl, inr, ap, ◌∙◌, ◌==◌, ==→eq, map, contains, All, Text,
}
use materials_manager.Core.Calendar.{Time}
use materials_manager.Core.Tx.{Result, ok, err}
use materials_manager.Model.Webhook.{WebhookDelivery}
use materials_manager.Model.Database.{Db}
use materials_manager.Webhook.Delivery.{
  Turn, is_pending, edit_delivery, start_sending, deliver_pending_once,
}
use materials_manager.Webhook.Delivery.Claims.{delivery_ids}
use materials_manager.Webhook.Delivery.Settle.{
  row_budget, IsFinish, settle, settle-same, settle-other,
}

abbrev pub budget : List WebhookDelivery → ℕ
budget [] = 0
budget (d ∷ ds) = row_budget d + budget ds

-- Whether a turn sent a delivery.
abbrev pub sent : Result Bool → ℕ
sent (ok true) = 1
sent (ok false) = 0
sent (err e) = 0

module _ (decrypt : Text → Option Text) where
  -- The turns of a run that sent a delivery.
  unfoldable pub deliveries_sent : List Turn → Db → ℕ
  deliveries_sent [] db = 0
  deliveries_sent (turn ∷ turns) db =
      sent (deliver_pending_once decrypt turn db).1
      + deliveries_sent turns (deliver_pending_once decrypt turn db).0

module _ (now : Time) (d : WebhookDelivery) (edit : WebhookDelivery → WebhookDelivery)
    (f : IsFinish (d.attempts + 1) edit) (p : is_pending d.status ≡ true)
    (few : d.attempts < 5) where
  row-falls :
      (e : WebhookDelivery)
      → (e.id ≡ d.id → e ≡ d)
      → (e.id == d.id) ≡ true
      → suc (row_budget (settle now d.id edit e)) ≤ row_budget e
  row-falls e u h =
      let same = u (==→eq e.id d.id h) in
      let left =
        f.spends (start_sending now e) (ap (λ (x : WebhookDelivery). x.attempts + 1) same) in
      let of_d : row_budget e ≡ 5 - d.attempts = ap row_budget same ∙ rw p refl in
      rw (settle-same now d edit e h) (omega (arith, left, of_d, few))

  row-keeps :
      (e : WebhookDelivery)
      → (e.id == d.id) ≡ false
      → row_budget (settle now d.id edit e) ≡ row_budget e
  row-keeps e h = ap row_budget (settle-other now d edit e h)

  abbrev settled : List WebhookDelivery → List WebhookDelivery
  settled ds = map (edit_delivery d.id edit) (map (edit_delivery d.id (start_sending now)) ds)

  budget-le :
      (ds : List WebhookDelivery)
      → All (λ e. e.id ≡ d.id → e ≡ d) ds
      → budget (settled ds) ≤ budget ds
  budget-le [] u = omega arith
  budget-le (e ∷ ds) u =
      let rest = budget-le ds u.1 in
      elim (Bool-cases (e.id == d.id)) [
        | inl h ↦ let one = row-falls e u.0 h in omega (arith, one, rest)
        | inr h ↦ let one = row-keeps e h in omega (arith, one, rest)
      ]

  pub budget-falls :
      (ds : List WebhookDelivery)
      → All (λ e. e.id ≡ d.id → e ≡ d) ds
      → contains d.id (delivery_ids ds) ≡ true
      → suc (budget (settled ds)) ≤ budget ds
  budget-falls [] u c = absurd (ground arith)
  budget-falls (e ∷ ds) u c = elim (Bool-cases (e.id == d.id)) [
    | inl h ↦ let one = row-falls e u.0 h in let rest = budget-le ds u.1 in omega (arith, one, rest)
    | inr h ↦
        let one = row-keeps e h in
        let rest = budget-falls ds u.1 (ground arith) in omega (arith, one, rest)
  ]
