-- ===== src/Webhook/Enqueue.antt =====
-- `enqueue_event` of backend/app/services/webhook_service.py: one pending delivery for each channel
-- that is enabled and subscribed.
pub mod Targets
use materials_manager.Base.{
  ℕ, suc, ◌+◌, Text, Option, none, some, Bool, true, false, List, [], ◌∷◌, ◌++◌, ◌&&◌, any, keep,
  length,
}
use materials_manager.Core.Enums.{WebhookEventType, WebhookDeliveryStatus}
use materials_manager.Core.Tx.{Tx, modify}
use materials_manager.Model.Webhook.{WebhookChannel, WebhookPayload, WebhookDelivery, EventData}
use materials_manager.Model.Database.{Db, Env}

abbrev pub event_eq : WebhookEventType → WebhookEventType → Bool
event_eq WebhookEventType.stock_outbound_created WebhookEventType.stock_outbound_created = true
event_eq WebhookEventType.stock_inbound_created WebhookEventType.stock_inbound_created = true
event_eq WebhookEventType.mini_program_user_bound WebhookEventType.mini_program_user_bound = true
event_eq _ _ = false

-- The row that the loop adds for a channel. `next_retry_at` is filled by its default, the clock.
new_delivery : Env → WebhookEventType → EventData → ℕ → WebhookChannel → WebhookDelivery
new_delivery env event_type contents id channel = record {
  id = id;
  event_id = env.event_id;
  event_type = event_type;
  channel_id = channel.id;
  payload = record {
    event_id = env.event_id;
    event_type = event_type;
    occurred_at = env.now;
    contents = contents;
  };
  status = WebhookDeliveryStatus.pending;
  attempts = 0;
  next_retry_at = env.now;
  response_status = none;
  response_excerpt = none;
  last_error = none;
  updated_at = env.now;
  delivered_at = none;
}

-- `WebhookChannel.enabled.is_(True)`, and the test in the loop.
unfoldable pub subscribed : WebhookEventType → WebhookChannel → Bool
subscribed event_type channel =
    channel.enabled && any (event_eq event_type) channel.subscribed_events

new_deliveries : Env → WebhookEventType → EventData → ℕ → List WebhookChannel → List WebhookDelivery
new_deliveries env event_type contents id [] = []
new_deliveries env event_type contents id (channel ∷ rest) =
    new_delivery env event_type contents id channel
    ∷ new_deliveries env event_type contents (suc id) rest

unfoldable pub enqueue_event : Env → WebhookEventType → EventData → Tx Db (Unit {0})
unfolding new_delivery subscribed new_deliveries
enqueue_event env event_type contents = modify λ db.
    let targets = keep (subscribed event_type) db.webhook_channels in
    record db {
      webhook_deliveries =
          db.webhook_deliveries
          ++ new_deliveries env event_type contents db.next_delivery_id targets;
      next_delivery_id = db.next_delivery_id + length targets;
    }
