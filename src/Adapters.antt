-- ===== src/Adapters.antt =====
-- The adapters: packages/adapters.
pub mod Naming
pub mod OpenApi
pub mod Mcp
pub mod Bridge
