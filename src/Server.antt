-- ===== src/Server.antt =====
-- The HTTP server: internal/server.
pub mod Types
pub mod MultiSend
pub mod Auth
pub mod Bots
pub mod Notify
pub mod Form
pub mod Send
pub mod Callbacks
pub mod CallbackToken
