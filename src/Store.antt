-- ===== src/Store.antt =====
-- internal/store: the photo store.
pub mod Photo
pub mod Session
pub mod State
pub mod Decisions
pub mod Clusters
pub mod Undo
pub mod Photos
pub mod Sessions
pub mod Open
pub mod Steps
pub mod Examples
