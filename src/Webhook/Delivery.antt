-- ===== src/Webhook/Delivery.antt =====
-- The delivery worker of backend/app/services/webhook_service.py. A delivery is claimed in one
-- transaction and finished in another; between the two the platform is called, which is outside.
-- Deciphering is the third-party `cryptography` package: the parameter `decrypt`, with `none` for an
-- `InvalidToken`.
pub mod Bounds
pub mod Budget
pub mod Claims
pub mod Hazards
pub mod Settle
use materials_manager.Base.{
  ℕ, zero, suc, ◌+◌, ◌-◌, ◌*◌, Text, Option, none, some, Bool, true, false, List, [], ◌∷◌, ◌&&◌,
  ◌||◌, ◌==◌, leb, ltb, find, map, take, if◌then◌else◌,
}
use materials_manager.Core.Errors.{ErrorCode, AppError, app_error, Failure}
use materials_manager.Core.Enums.{WebhookPlatform, WebhookDeliveryStatus}
use materials_manager.Core.Calendar.{Time}
use materials_manager.Core.Tx.{
  Result, ok, err, Tx, ◌>>=◌, ◌>>◌, pure, gets, modify, or_raise, or_key_error,
}
use materials_manager.Model.Webhook.{WebhookChannel, WebhookPayload, WebhookDelivery}
use materials_manager.Model.Database.{Db}

abbrev pub max_attempts : ℕ
max_attempts = 5

abbrev pub minutes : ℕ → Time
minutes n = n * 60000000

-- `_SENDING_LEASE_MINUTES`
abbrev pub sending_lease : Time
sending_lease = minutes 5

-- `_RETRY_MINUTES[attempts - 1]`. No attempt at all would read the last entry, as -1 does.
unfoldable pub retry_minutes : ℕ → Option ℕ
retry_minutes zero = some 180
retry_minutes (suc zero) = some 1
retry_minutes (suc (suc zero)) = some 5
retry_minutes (suc (suc (suc zero))) = some 15
retry_minutes (suc (suc (suc (suc zero)))) = some 60
retry_minutes (suc (suc (suc (suc (suc zero))))) = some 180
retry_minutes (suc (suc (suc (suc (suc (suc n)))))) = none

pub record ClaimedDelivery : Type 0 where
  pub delivery_id : ℕ
  pub platform : WebhookPlatform
  pub webhook_url : Text
  pub secret : Text
  pub payload : WebhookPayload
  pub attempts : ℕ

abbrev pub is_pending : WebhookDeliveryStatus → Bool
is_pending WebhookDeliveryStatus.pending = true
is_pending _ = false

abbrev pub is_sending : WebhookDeliveryStatus → Bool
is_sending WebhookDeliveryStatus.sending = true
is_sending _ = false

-- The `WHERE` of the claim: a pending delivery that is due, or one whose sender has gone silent.
unfoldable pub is_claimable : Time → WebhookDelivery → Bool
is_claimable now d =
    (is_pending d.status && leb d.next_retry_at now)
    || (is_sending d.status && leb (d.updated_at + sending_lease) now)

abbrev older : WebhookDelivery → Option WebhookDelivery → Option WebhookDelivery
older d none = some d
older d (some e) = if leb d.id e.id then some d else some e

-- `ORDER BY id LIMIT 1`
unfoldable pub first_claimable : Time → List WebhookDelivery → Option WebhookDelivery
first_claimable now [] = none
first_claimable now (d ∷ ds) =
    let rest = first_claimable now ds in if is_claimable now d then older d rest else rest

abbrev pub with_id : ℕ → WebhookDelivery → Bool
with_id id d = d.id == id

abbrev pub edit_delivery :
    ℕ → (WebhookDelivery → WebhookDelivery) → WebhookDelivery → WebhookDelivery
edit_delivery id f d = if d.id == id then f d else d

-- `UPDATE ... WHERE id`
abbrev pub update_delivery : ℕ → (WebhookDelivery → WebhookDelivery) → Db → Db
update_delivery id f db = record db {
  webhook_deliveries = map (edit_delivery id f) db.webhook_deliveries;
}

abbrev pub start_sending : Time → WebhookDelivery → WebhookDelivery
start_sending now d = record d {
  status = WebhookDeliveryStatus.sending;
  attempts = d.attempts + 1;
  updated_at = now;
}

-- What the platform answered: a status and an excerpt of the body, or the text of the exception.
pub data Outcome : Type 0 where
  answered : ℕ → Text → Outcome
  error : Text → Outcome

abbrev pub succeed : Time → ℕ → Text → WebhookDelivery → WebhookDelivery
succeed now status excerpt d = record d {
  updated_at = now;
  response_status = some status;
  response_excerpt = some excerpt;
  status = WebhookDeliveryStatus.succeeded;
  delivered_at = some now;
  last_error = none;
}

abbrev pub give_up : Time → Text → WebhookDelivery → WebhookDelivery
give_up now message d = record d {
  updated_at = now;
  response_status = none;
  response_excerpt = none;
  last_error = some (take 1000 message);
  status = WebhookDeliveryStatus.failed;
}

abbrev pub retry_later : Time → Text → ℕ → WebhookDelivery → WebhookDelivery
retry_later now message delay d = record d {
  updated_at = now;
  response_status = none;
  response_excerpt = none;
  last_error = some (take 1000 message);
  status = WebhookDeliveryStatus.pending;
  next_retry_at = now + minutes delay;
}

-- The rows that `_finish_delivery` leaves; `none` if the table of delays has no entry.
unfoldable pub finish_row : Time → ℕ → Outcome → Option (WebhookDelivery → WebhookDelivery)
finish_row now attempts (answered status excerpt) = some (succeed now status excerpt)
finish_row now attempts (error message) =
    if leb max_attempts attempts
    then some (give_up now message)
    else (elim (retry_minutes attempts) [
      | some delay ↦ some (retry_later now message delay)
      | none ↦ none
    ])

-- `_finish_delivery`: nothing if the row is gone. It does not look at the row's status.
unfoldable pub finish_delivery : Time → ClaimedDelivery → Outcome → Tx Db (Unit {0})
finish_delivery now claimed outcome = do
  found ← gets (λ db. find (with_id claimed.delivery_id) db.webhook_deliveries)
  elim found [
    | none ↦ pure tt
    | some d ↦ do
      edit ← or_key_error (finish_row now claimed.attempts outcome)
      modify (update_delivery claimed.delivery_id edit)
  ]

-- One turn of the worker: when it claims, when it finishes, and what the platform answered.
pub record Turn : Type 0 where
  pub claimed_at : Time
  pub finished_at : Time
  pub outcome : Outcome

module _ (decrypt : Text → Option Text) where
  -- `_decrypt`: an empty text is no credential.
  unfoldable pub decrypt_credential : Text → Tx Db Text
  decrypt_credential [] = pure []
  decrypt_credential (c ∷ s) =
      or_raise (decrypt (c ∷ s)) (app_error ErrorCode.webhook_credential_decrypt_failed (some 503))

  -- The rest of `_claim_delivery`, with the row that was found.
  unfoldable pub claim_row : Time → WebhookDelivery → Tx Db (Option ClaimedDelivery)
  claim_row now d = do
    channel_found ← gets (λ db. find (λ c. c.id == d.channel_id) db.webhook_channels)
    channel ← or_key_error channel_found
    url ← decrypt_credential channel.webhook_url_encrypted
    secret ← decrypt_credential channel.secret_encrypted
    modify (update_delivery d.id (start_sending now))
    pure (
        some (record {
          delivery_id = d.id;
          platform = channel.platform;
          webhook_url = url;
          secret = secret;
          payload = d.payload;
          attempts = d.attempts + 1;
        }))

  unfoldable pub claim_delivery : Time → Tx Db (Option ClaimedDelivery)
  claim_delivery now = do
    found ← gets (λ db. first_claimable now db.webhook_deliveries)
    elim found [ none ↦ pure none | some d ↦ claim_row now d ]

  -- `deliver_pending_once`: the database that it leaves, and whether it delivered. A claim that
  -- raises is rolled back; what was claimed stays claimed if finishing raises.
  unfoldable pub after_claim : Turn → Db → Result (Option ClaimedDelivery × Db) → Db × Result Bool
  after_claim turn db (err e) = (db, err e)
  after_claim turn db (ok (none, db1)) = (db1, ok false)
  after_claim turn db (ok (some claimed, db1)) =
      elim (finish_delivery turn.finished_at claimed turn.outcome db1) [
        | err e ↦ (db1, err e)
        | ok r ↦ (r.1, ok true)
      ]

  unfoldable pub deliver_pending_once : Turn → Db → Db × Result Bool
  unfolding after_claim
  deliver_pending_once turn db = after_claim turn db (claim_delivery turn.claimed_at db)

  -- `run_delivery_worker`: an exception is logged, and the loop goes on.
  unfoldable pub run_worker : List Turn → Db → Db
  run_worker [] db = db
  run_worker (turn ∷ turns) db = run_worker turns (deliver_pending_once turn db).0
