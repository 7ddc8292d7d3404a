-- ===== src/Relay.antt =====
-- src/relay.rs: the forwarding of frames, one module for each mode.
pub mod PerConnection
pub mod Pooled
pub mod Leases
pub mod Delivery
pub mod Session
pub mod Transparency
pub mod Ends
pub mod IdleTimeout
pub mod PooledWriter
pub mod PooledEnds
pub mod Entries
pub mod KeptOpen
mod Tests
mod SessionTests
