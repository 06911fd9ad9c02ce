-- ===== src/Core.antt =====
-- What every service rests on: backend/app/core, backend/app/domain/enums.py and
-- backend/app/services/common.py. A child module for each of errors, transactions, enumerations,
-- decimal quantities, the calendar and the checks shared by the services.
pub mod Errors
pub mod Tx
pub mod Enums
pub mod Paging
pub mod Responses
pub mod Quantity
pub mod Calendar
pub mod Common
