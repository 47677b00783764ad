-- ===== src/Serve.antt =====
-- The start of the server: internal/cmd/serve.go.
pub mod Keys
pub mod Sender
pub mod BotSecrets
pub mod BotSender
