-- ===== src/Client.antt =====
-- The client: packages/client/src.
pub mod Pins
pub mod Trust
pub mod Gate
pub mod Call
pub mod Promotion
pub mod Audit
pub mod Setup
pub mod Requests
