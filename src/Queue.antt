-- ===== src/Queue.antt =====
-- The queue between the producers and the worker: internal/queue and internal/cmd/enqueue.go.
pub mod Types
pub mod Catalog
pub mod Enqueue
