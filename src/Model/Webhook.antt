-- ===== src/Model/Webhook.antt =====
-- backend/app/models/__init__.py: the tables of the notifications, with the JSON of a payload as a
-- data type. The credentials stand encrypted in the table; a cipher text is a text.
use materials_manager.Base.{ℕ, ℤ, Text, Option, Bool, List}
use materials_manager.Core.Enums.{
  SourceType, WebhookPlatform, WebhookEventType, WebhookDeliveryStatus,
}
use materials_manager.Core.Calendar.{Time}

pub record WebhookChannel : Type 0 where
  pub id : ℕ
  pub platform : WebhookPlatform
  pub enabled : Bool
  pub webhook_url_encrypted : Text
  pub secret_encrypted : Text
  pub subscribed_events : List WebhookEventType
  pub version : ℕ

-- One entry of `"materials"` in the data of a stock event.
pub record EventMaterial : Type 0 where
  pub name : Text
  pub model_spec : Text
  pub quantity : ℕ
  pub unit_name : Text
  pub before_qty : ℤ
  pub after_qty : ℤ

pub record StockEvent : Type 0 where
  pub occurred_at : Time
  pub source_type : SourceType
  pub business_reason : Text
  pub receiver_unit : Option Text
  pub receiver_name : Option Text
  pub subitem_no : Option Text
  pub materials : List EventMaterial

pub record UserBoundEvent : Type 0 where
  pub display_name : Text
  pub department_name : Text
  pub app_id : Text
  pub enabled : Bool
  pub bound_at : Time

pub data EventData : Type 0 where
  stock : StockEvent → EventData
  user_bound : UserBoundEvent → EventData

pub record WebhookPayload : Type 0 where
  pub event_id : Text
  pub event_type : WebhookEventType
  pub occurred_at : Time
  pub contents : EventData

pub record WebhookDelivery : Type 0 where
  pub id : ℕ
  pub event_id : Text
  pub event_type : WebhookEventType
  pub channel_id : ℕ
  pub payload : WebhookPayload
  pub status : WebhookDeliveryStatus
  pub attempts : ℕ
  pub next_retry_at : Time
  pub response_status : Option ℕ
  pub response_excerpt : Option Text
  pub last_error : Option Text
  pub updated_at : Time
  pub delivered_at : Option Time
