-- ===== src/Backfill.antt =====
-- backfillers: the requests, what is fetched from the chain, and the jobs.
pub mod Requests
pub mod Fetch
pub mod Blocks
pub mod Jobs
pub mod Service
pub mod Sync
pub mod Positions
pub mod Workers
pub mod Latest
pub mod Config
pub mod Command
