-- ===== src/Protocol.antt =====
-- src/protocol: the packet format of the data diode, its writer and its reader.
pub mod Types
pub mod Checksum
pub mod Format
pub mod Cache
pub mod Parse
pub mod Delivery
pub mod MessageId
pub mod Gzip
