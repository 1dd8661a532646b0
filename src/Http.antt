-- ===== src/Http.antt =====
-- internal/httpapi: the HTTP edge.
pub mod Security
pub mod Handler
pub mod Guard
pub mod Payments
pub mod Transfers
pub mod Admin
pub mod Webhooks
