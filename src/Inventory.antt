-- ===== src/Inventory.antt =====
-- backend/app/services/inventory_service.py: the stock ledger.
pub mod Validate
pub mod Replay
pub mod Rows
pub mod Create
pub mod Update
pub mod Ledger
mod Tests
