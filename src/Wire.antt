-- ===== src/Wire.antt =====
-- The formats between processes: protocol.
pub mod Texts
pub mod Tunnel
pub mod Trace
pub mod Sse
pub mod Events
