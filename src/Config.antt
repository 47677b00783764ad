-- ===== src/Config.antt =====
-- The configuration: internal/config/config.go.
pub mod Types
pub mod Chats
pub mod Bots
pub mod Secret
pub mod Load
pub mod Gitlab
