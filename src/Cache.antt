-- ===== src/Cache.antt =====
-- pkg/plugin/cache.go: the cache of networks and endpoints, and its file on disk. Each method holds
-- the cache's lock from its first line to its last, so it is one step on the cache's state.
pub mod State
pub mod Json
pub mod Disk
pub mod Maps
pub mod Load
pub mod Ops
pub mod Reconcile
pub mod History
pub mod Sample
