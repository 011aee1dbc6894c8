-- ===== src/Store.antt =====
-- The store service (store/*.go).
pub mod Notification
pub mod Memory
pub mod Criteria
pub mod Upsert
pub mod Overwrite
pub mod Bulk
pub mod Filters
pub mod Queries
pub mod Start
pub mod Subscriptions
pub mod Histories
pub mod Announced
