-- ===== src/Ha.antt =====
-- src/gruezi/ha.rs: the HA runtime. Each child is one part of it.
pub mod State
pub mod Error
pub mod Runtime
pub mod Cursor
pub mod Packet
pub mod Auth
pub mod Receive
pub mod Decision
pub mod Status
pub mod Loop
