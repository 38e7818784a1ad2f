-- ===== src/Server.antt =====
-- The server: packages/server/src. `Stores` are its pluggable stores, `Middleware` the gates before
-- every route, `Api` the values that go in and out, `Handlers` and
-- `Call` the routes, `App` the whole of a request.
pub mod Stores
pub mod Middleware
pub mod Api
pub mod Handlers
pub mod Call
pub mod App
pub mod Ledger
pub mod Define
