-- ===== src/Model/Database.antt =====
-- The database, and what a request reads from outside: the clock and fresh identifiers.
use materials_manager.Base.{ℕ, Text, Option, none, List, []}
use materials_manager.Core.Calendar.{Time}
use materials_manager.Model.Stock.{
  StockMaterial, StockBalance, StockOperation, BusinessEventLog, MiniProgramUser,
}
use materials_manager.Model.Accounts.{User, AiSearchConfig}
use materials_manager.Model.Webhook.{WebhookChannel, WebhookDelivery}
use materials_manager.Model.Purchase.{
  PurchaseMaterial, PurchaseRequest, PurchaseRequestLine, PurchasePlanTemplate,
}

-- `file_objects` holds the ids of the stored files. The `next_…` fields are the counters of the `autoincrement` keys.
pub record Db : Type 0 where
  pub stock_materials : List StockMaterial
  pub stock_balances : List StockBalance
  pub stock_operations : List StockOperation
  pub next_stock_material_id : ℕ
  pub next_operation_id : ℕ
  pub next_line_id : ℕ
  pub event_logs : List BusinessEventLog
  pub webhook_channels : List WebhookChannel
  pub webhook_deliveries : List WebhookDelivery
  pub next_delivery_id : ℕ
  pub file_objects : List Text
  pub purchase_materials : List PurchaseMaterial
  pub purchase_requests : List PurchaseRequest
  pub purchase_request_lines : List PurchaseRequestLine
  pub next_purchase_material_id : ℕ
  pub next_purchase_request_id : ℕ
  pub next_purchase_line_id : ℕ
  pub purchase_plan_templates : List PurchasePlanTemplate
  pub next_purchase_plan_template_id : ℕ
  pub users : List User
  pub mini_program_users : List MiniProgramUser
  pub next_mini_program_user_id : ℕ
  pub setting : Option AiSearchConfig

abbrev pub empty_db : Db
empty_db = record {
  stock_materials = [];
  stock_balances = [];
  stock_operations = [];
  next_stock_material_id = 1;
  next_operation_id = 1;
  next_line_id = 1;
  event_logs = [];
  webhook_channels = [];
  webhook_deliveries = [];
  next_delivery_id = 1;
  file_objects = [];
  purchase_materials = [];
  purchase_requests = [];
  purchase_request_lines = [];
  next_purchase_material_id = 1;
  next_purchase_request_id = 1;
  next_purchase_line_id = 1;
  purchase_plan_templates = [];
  next_purchase_plan_template_id = 1;
  users = [];
  mini_program_users = [];
  next_mini_program_user_id = 1;
  setting = none;
}

-- `utcnow()` during a request, read as one moment, and the `uuid4()` of its notification.
pub record Env : Type 0 where
  pub now : Time
  pub event_id : Text
