-- ===== src/Webhook/Delivery/Bounds.antt =====
-- A worker that runs alone: how often a delivery is sent, and that no row stays `SENDING`.
use materials_manager.Base.{
  ℕ, suc, ◌+◌, ◌≤◌, ◌≡◌, refl, Option, none, some, true, List, [], ◌∷◌, arith, Bool-cases,
  Option-cases, inl, inr, ap, sym, ◌∙◌, ◌==◌, map, find, contains, all_distinct, All, Text, subst,
}
use materials_manager.Core.Calendar.{Time}
use materials_manager.Core.Tx.{Result, Tx, pure, ok, err, gets, modify, or_key_error, ◌>>=◌}
use materials_manager.Model.Webhook.{WebhookDelivery}
use materials_manager.Model.Database.{Db}
use materials_manager.Webhook.Delivery.{
  ClaimedDelivery, Outcome, Turn, with_id, first_claimable, edit_delivery, update_delivery,
  start_sending, finish_row, finish_delivery, claim_delivery, after_claim, deliver_pending_once,
  run_worker,
}
use materials_manager.Webhook.Delivery.Claims.{
  delivery_ids, IsClaim, ClaimLeaves, claim_delivery-Ensures, first-only, first-claimable,
  first-contains, older-cases,
}
use materials_manager.Webhook.Delivery.Budget.{budget, budget-falls, sent, deliveries_sent}
use materials_manager.Webhook.Delivery.Settle.{
  claimable-pending, is_resting, IsQuiet, finish_row-IsFinish, settle-rests, settle-ids,
  claimable-attempts,
}

find_started :
    (now : Time) (id : ℕ) (ds : List WebhookDelivery)
    → contains id (delivery_ids ds) ≡ true
    → (e : WebhookDelivery) × (find (with_id id) (map (edit_delivery id (start_sending now)) ds)
        ≡ some e)
find_started now id [] h = absurd (ground arith)
find_started now id (e ∷ ds) h = elim (Bool-cases (e.id == id)) [
  | inl c ↦ (start_sending now e, rw (c, c) refl)
  | inr c ↦ let r = find_started now id ds (ground arith) in (r.0, rw (c, c) r.1)
]

claimed-resting :
    (now : Time) (ds : List WebhookDelivery) (d : WebhookDelivery)
    → first_claimable now ds ≡ some d
    → All (λ e. is_resting e ≡ true) ds
    → is_resting d ≡ true
unfolding first_claimable
claimed-resting now [] d h r = cc
claimed-resting now (x ∷ ds) d h r = elim (Option-cases (first_claimable now ds)) [
  | inl e ↦ let same : x ≡ d = ground arith in subst (λ z. is_resting z ≡ true) same r.0
  | inr (y, e) ↦
      let ih = claimed-resting now ds y e r.1 in
      elim (older-cases now x ds d y h e) [
        | inl same ↦ subst (λ z. is_resting z ≡ true) same r.0
        | inr same ↦ subst (λ z. is_resting z ≡ true) same ih
      ]
]

finish_run :
    (now : Time) (c : ClaimedDelivery) (outcome : Outcome) (db : Db) (y : WebhookDelivery)
    (edit : WebhookDelivery → WebhookDelivery)
    → find (with_id c.delivery_id) db.webhook_deliveries ≡ some y
    → finish_row now c.attempts outcome ≡ some edit
    → finish_delivery now c outcome db ≡ ok (tt, update_delivery c.delivery_id edit db)
unfolding finish_delivery ◌>>=◌ gets or_key_error modify
finish_run now c outcome db y edit there e =
    let write : (WebhookDelivery → WebhookDelivery) → Tx Db (Unit {0}) =
      λ f. modify (update_delivery c.delivery_id f) in
    ap
      (λ (o : Option WebhookDelivery).
        (elim o as (λ _. Tx Db (Unit {0})) [
          | none ↦ pure tt
          | some d ↦ or_key_error (finish_row now c.attempts outcome) >>= write
        ])
          db)
      there
    ∙ ap (λ (o : Option (WebhookDelivery → WebhookDelivery)). (or_key_error o >>= write) db) e

module _ (decrypt : Text → Option Text) (turn : Turn) (db : Db) (quiet : IsQuiet db) where
  -- A claimed delivery is finished, and its row rests again.
  finish_claimed :
      (c : ClaimedDelivery) (db1 : Db)
      → IsClaim turn.claimed_at db c db1
      → (db2 : Db) × (finish_delivery turn.finished_at c turn.outcome db1 ≡ ok (tt, db2))
        × IsQuiet db2
        × (suc (budget db2.webhook_deliveries) ≤ budget db.webhook_deliveries)
  finish_claimed c db1 q =
      let now = turn.claimed_at in
      let few =
        claimable-attempts now q.row (first-claimable now db.webhook_deliveries q.row q.found)
          (claimed-resting now db.webhook_deliveries q.row q.found quiet.resting) in
      let (edit, e, f) =
        finish_row-IsFinish turn.finished_at (q.row.attempts + 1) turn.outcome
          (omega (arith, few)) in
      let (y, there) =
        find_started now q.row.id db.webhook_deliveries
          (first-contains now db.webhook_deliveries q.row q.found) in
      let only = first-only now db.webhook_deliveries q.row q.found quiet.keyed in
      (
        update_delivery q.row.id edit (update_delivery q.row.id (start_sending now) db),
        subst
            (λ (s : Db).
              finish_delivery turn.finished_at c turn.outcome s
              ≡ ok (
                tt,
                update_delivery q.row.id edit (update_delivery q.row.id (start_sending now) db),
              ))
            (sym q.left)
            (subst
              (λ (n : ℕ).
                finish_delivery turn.finished_at c turn.outcome
                  (update_delivery q.row.id (start_sending now) db)
                ≡ ok (tt, update_delivery n edit (update_delivery q.row.id (start_sending now) db)))
              q.same_id
              (finish_run turn.finished_at c turn.outcome
                (update_delivery q.row.id (start_sending now) db) y edit
                (subst
                  (λ (n : ℕ).
                    find (with_id n)
                      (map (edit_delivery q.row.id (start_sending now)) db.webhook_deliveries)
                    ≡ some y)
                  (sym q.same_id) there)
                (rw q.counted e))),
        record {
          keyed = ap all_distinct (settle-ids now q.row edit db.webhook_deliveries f) ∙ quiet.keyed;
          resting = settle-rests now q.row edit db.webhook_deliveries f only quiet.resting;
        },
        budget-falls now q.row edit f
            (claimable-pending now q.row (first-claimable now db.webhook_deliveries q.row q.found)
              (claimed-resting now db.webhook_deliveries q.row q.found quiet.resting))
            few db.webhook_deliveries only (first-contains now db.webhook_deliveries q.row q.found),
      )

  pub after_claim-budget :
      (r : Result (Option ClaimedDelivery × Db))
      → ((o : Option ClaimedDelivery) (db1 : Db)
          → r ≡ ok (o, db1)
          → ClaimLeaves turn.claimed_at db o db1)
      → sent (after_claim decrypt turn db r).1
          + budget (after_claim decrypt turn db r).0.webhook_deliveries
        ≤ budget db.webhook_deliveries
  unfolding after_claim
  after_claim-budget (err e) h = omega arith
  after_claim-budget (ok (none, db1)) h =
      subst (λ (s : Db). 0 + budget s.webhook_deliveries ≤ budget db.webhook_deliveries)
        (sym (h none db1 refl)) (omega arith)
  after_claim-budget (ok (some c, db1)) h =
      let (db2, e, q, less) = finish_claimed c db1 (h (some c) db1 refl) in
      rw (after_claim, e) (omega (arith, less))

  after_claim-IsQuiet :
      (r : Result (Option ClaimedDelivery × Db))
      → ((o : Option ClaimedDelivery) (db1 : Db)
          → r ≡ ok (o, db1)
          → ClaimLeaves turn.claimed_at db o db1)
      → IsQuiet (after_claim decrypt turn db r).0
  unfolding after_claim
  after_claim-IsQuiet (err e) h = quiet
  after_claim-IsQuiet (ok (none, db1)) h = subst IsQuiet (sym (h none db1 refl)) quiet
  after_claim-IsQuiet (ok (some c, db1)) h =
      let (db2, e, q, less) = finish_claimed c db1 (h (some c) db1 refl) in rw (after_claim, e) q

module _ (decrypt : Text → Option Text) where
  deliver_pending_once-budget :
      (turn : Turn) (db : Db)
      → IsQuiet db
      → sent (deliver_pending_once decrypt turn db).1
          + budget (deliver_pending_once decrypt turn db).0.webhook_deliveries
        ≤ budget db.webhook_deliveries
  unfolding deliver_pending_once
  deliver_pending_once-budget turn db quiet =
      after_claim-budget decrypt turn db quiet (claim_delivery decrypt turn.claimed_at db)
        (λ o db1 e. (claim_delivery-Ensures decrypt turn.claimed_at db).at db refl o db1 e)

  deliver_pending_once-IsQuiet :
      (turn : Turn) (db : Db) → IsQuiet db → IsQuiet (deliver_pending_once decrypt turn db).0
  unfolding deliver_pending_once
  deliver_pending_once-IsQuiet turn db quiet =
      after_claim-IsQuiet decrypt turn db quiet (claim_delivery decrypt turn.claimed_at db)
        (λ o db1 e. (claim_delivery-Ensures decrypt turn.claimed_at db).at db refl o db1 e)

-- Whatever the platforms answer and however the clock runs, a worker that runs alone keeps every
-- delivery at five attempts at most, keeps one that is to be sent again under five, and leaves no
-- delivery `SENDING`, if that holds at the start and the keys of the table are distinct.
pub run_worker-IsQuiet :
    (decrypt : Text → Option Text) (turns : List Turn) (db : Db)
    → IsQuiet db
    → IsQuiet (run_worker decrypt turns db)
unfolding run_worker
run_worker-IsQuiet decrypt [] db quiet = quiet
run_worker-IsQuiet decrypt (turn ∷ turns) db quiet =
    run_worker-IsQuiet decrypt turns (deliver_pending_once decrypt turn db).0
      (deliver_pending_once-IsQuiet decrypt turn db quiet)

-- A worker that runs alone drains its table: the deliveries that it sends in a run and those that it
-- may still send after it, together, are no more than it might send at the start. A delivery that
-- waits counts for the attempts that it has left out of five, any other for none. The rows are at
-- rest and their keys distinct at the start.
pub run_worker-budget :
    (decrypt : Text → Option Text) (turns : List Turn) (db : Db)
    → IsQuiet db
    → deliveries_sent decrypt turns db + budget (run_worker decrypt turns db).webhook_deliveries
      ≤ budget db.webhook_deliveries
unfolding run_worker deliveries_sent
run_worker-budget decrypt [] db quiet = omega arith
run_worker-budget decrypt (turn ∷ turns) db quiet =
    let step = deliver_pending_once-budget decrypt turn db quiet in
    let rest =
      run_worker-budget decrypt turns (deliver_pending_once decrypt turn db).0
        (deliver_pending_once-IsQuiet decrypt turn db quiet) in
    omega (arith, step, rest)
