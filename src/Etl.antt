-- ===== src/Etl.antt =====
-- realtime-etl: the events of the chain, what they do to the store, their retries, and the life of
-- the processor.
pub mod Events
pub mod Handlers
pub mod Counted
pub mod Liquidity
pub mod Retries
pub mod Drained
pub mod Lifecycle
pub mod Health
pub mod Loops
