-- ===== src/Token.antt =====
-- The tokens of the bots: internal/token and `authenticate` of internal/cmd/cmd.go.
pub mod Cache
pub mod Auth
