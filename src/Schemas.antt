-- ===== src/Schemas.antt =====
-- backend/app/schemas: the bodies of requests, and the validators that run before a handler.
pub mod Purchase
pub mod Operations
