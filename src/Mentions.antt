-- ===== src/Mentions.antt =====
-- Inline mentions in a message: internal/mentions/parser.go.
pub mod Scan
pub mod Token
pub mod Parse
