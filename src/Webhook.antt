-- ===== src/Webhook.antt =====
-- backend/app/services/webhook_service.py: the notifications to chat platforms.
pub mod Enqueue
pub mod Delivery
mod Tests
pub use Enqueue.*
unfoldable pub use Enqueue.{enqueue_event, subscribed}
