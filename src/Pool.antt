-- ===== src/Pool.antt =====
-- src/pool.rs: the upstream connection pool and the table of requests in flight.
pub mod Remap
pub mod Broker
pub mod Route
pub mod Capacity
pub mod Exhaustion
pub mod Reaping
pub mod WriteLoop
pub mod Cleanup
pub mod Wakeups
pub mod Ends
pub mod Acquire
mod Tests
mod TaskTests
mod WaitTests
