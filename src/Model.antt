-- ===== src/Model.antt =====
-- backend/app/models: the tables as records, and the database as the lists of their rows. The order
-- of the rows in a list means nothing: each query of the program that needs an order asks for it.
-- Columns for audit times (`created_at`, `updated_at` of `AuditMixin`), which no modelled operation
-- reads, are left out.
pub mod Stock
pub mod Webhook
pub mod Purchase
pub mod Accounts
pub mod Database
