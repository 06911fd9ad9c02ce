-- ===== src/Webhook/Tests.antt =====
-- Runs of the notifications, and instances of their theorems.
use materials_manager.Base.{
  ℕ, ◌+◌, ◌≤◌, ◌≡◌, refl, Option, none, some, true, false, List, [], ◌∷◌, ◌++◌, map, keep, length,
  All, Text, text, arith,
}
use materials_manager.Core.Enums.{WebhookPlatform, WebhookEventType, WebhookDeliveryStatus}
use materials_manager.Core.Tx.{Result, ok}
use materials_manager.Model.Webhook.{WebhookChannel, WebhookDelivery, EventData}
use materials_manager.Model.Database.{Db, Env, empty_db}
use materials_manager.Webhook.Enqueue.{enqueue_event}
use materials_manager.Webhook.Enqueue.Targets.{is_target, IsFresh, enqueue_event-targets}
use materials_manager.Webhook.Delivery.{
  ClaimedDelivery, Outcome, Turn, is_claimable, update_delivery, start_sending, claim_delivery,
  run_worker,
}
use materials_manager.Webhook.Delivery.Settle.{IsQuiet}
use materials_manager.Webhook.Delivery.Bounds.{run_worker-IsQuiet, run_worker-budget}
use materials_manager.Webhook.Delivery.Budget.{budget, deliveries_sent}
use materials_manager.Webhook.Delivery.Hazards.{IsPoison, run_worker-blocked}

abbrev team : WebhookChannel
team = record {
  id = 3;
  platform = WebhookPlatform.feishu;
  enabled = true;
  webhook_url_encrypted = text "zurl";
  secret_encrypted = [];
  subscribed_events = WebhookEventType.mini_program_user_bound ∷ [];
  version = 1;
}

abbrev bound_user : EventData
bound_user = EventData.user_bound (record {
  display_name = text "li";
  department_name = text "d";
  app_id = text "wx";
  enabled = true;
  bound_at = 50;
})

abbrev morning : Env
morning = record { now = 100; event_id = text "e7" }

abbrev channels_db : Db
channels_db = record empty_db {
  webhook_channels = team ∷ record team { id = 4; enabled = false } ∷ [];
}

enqueue_event-targets_example :
    (added : List WebhookDelivery) × (map (λ d. d.channel_id) added
      ≡ map
          (λ c. c.id)
          (keep (is_target WebhookEventType.mini_program_user_bound) channels_db.webhook_channels))
    × All (IsFresh morning WebhookEventType.mini_program_user_bound bound_user) added
    × (db' : Db) × (enqueue_event morning WebhookEventType.mini_program_user_bound bound_user
          channels_db
        ≡ ok (tt, db'))
    × (db'.webhook_deliveries ≡ channels_db.webhook_deliveries ++ added)
    × (db'.next_delivery_id ≡ channels_db.next_delivery_id + length added)
enqueue_event-targets_example =
    enqueue_event-targets morning WebhookEventType.mini_program_user_bound bound_user channels_db

-- A delivery to the team that was tried four times.
abbrev fifth : WebhookDelivery
fifth = record {
  id = 1;
  event_id = text "e6";
  event_type = WebhookEventType.mini_program_user_bound;
  channel_id = 3;
  payload = record {
    event_id = text "e6";
    event_type = WebhookEventType.mini_program_user_bound;
    occurred_at = 50;
    contents = bound_user;
  };
  status = WebhookDeliveryStatus.pending;
  attempts = 4;
  next_retry_at = 90;
  response_status = none;
  response_excerpt = none;
  last_error = none;
  updated_at = 60;
  delivered_at = none;
}

abbrev waiting_db : Db
waiting_db = record channels_db {
  webhook_deliveries = fifth ∷ record fifth { id = 2; attempts = 0 } ∷ [];
}

-- Ciphers that drop a prefix, and one that fails.
abbrev drop_mark : Text → Option Text
drop_mark [] = none
drop_mark (c ∷ s) = some s

abbrev fail : Text → Option Text
fail s = none

abbrev claimed : Result (Option ClaimedDelivery × Db)
claimed = claim_delivery drop_mark 100 waiting_db

abbrev claimed_delivery : ClaimedDelivery
claimed_delivery = record {
  delivery_id = 1;
  platform = WebhookPlatform.feishu;
  webhook_url = text "url";
  secret = [];
  payload = fifth.payload;
  attempts = 5;
}

abbrev claimed_db : Db
claimed_db = update_delivery 1 (start_sending 100) waiting_db

abbrev turns : List Turn
turns =
    record { claimed_at = 100; finished_at = 120; outcome = Outcome.error (text "timeout") }
    ∷ record { claimed_at = 130; finished_at = 140; outcome = Outcome.answered 200 (text "ok") }
    ∷ []

waiting-IsQuiet : IsQuiet waiting_db
waiting-IsQuiet = record { keyed = refl; resting = (refl, (refl, tt)) }

run_worker-IsQuiet_example : IsQuiet (run_worker drop_mark turns waiting_db)
run_worker-IsQuiet_example = run_worker-IsQuiet drop_mark turns waiting_db waiting-IsQuiet

run_worker-budget_example :
    deliveries_sent drop_mark turns waiting_db
      + budget (run_worker drop_mark turns waiting_db).webhook_deliveries
    ≤ budget waiting_db.webhook_deliveries
run_worker-budget_example = run_worker-budget drop_mark turns waiting_db waiting-IsQuiet

poison : (now : ℕ) → is_claimable now fifth ≡ true → IsPoison fail now fifth waiting_db
poison now due = record {
  due = due;
  channel = team;
  of_channel = refl;
  code = 122;
  codes = text "url";
  address = refl;
  undecryptable = refl;
}

run_worker-blocked_example : run_worker fail turns waiting_db ≡ waiting_db
unfolding is_claimable
run_worker-blocked_example =
    run_worker-blocked fail turns fifth (record fifth { id = 2; attempts = 0 } ∷ []) waiting_db refl
      (omega arith, tt) (poison 100 refl, (poison 130 refl, tt))
