-- ===== src/Gitlab.antt =====
-- The GitLab webhook: internal/server/handler_gitlab.go and internal/server/gitlab_routing.go.
pub mod Glob
pub mod Payload
pub mod Filter
pub mod Route
pub mod Handler
