-- ===== src/Purchase.antt =====
-- The purchase plans of backend/app/services/material_service.py, the records of
-- purchase_request_service.py, their synchronisation with the external platform
-- (purchase_record_sync_service.py) and the removal of moved plans (purchase_plan_cleanup_service.py).
pub mod Numbers
pub mod Plans
pub mod Templates
pub mod Records
pub mod Batch
pub mod Restore
pub mod Linked
pub mod Sync
mod Tests
