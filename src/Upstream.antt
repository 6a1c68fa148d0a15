-- ===== src/Upstream.antt =====
-- The sender of the diode (src/upstream).
pub mod Memory
pub mod MessageId
pub mod Sending
pub mod Templates
pub mod LostEvents
