-- ===== src/Tests.antt =====
-- The theorems at concrete inputs.
mod Gitlab
mod Mentions
mod Server
mod Config
mod Command
mod Serve
mod Sender
mod Queue
mod Worker
mod Tokens
