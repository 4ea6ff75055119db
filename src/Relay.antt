-- ===== src/Relay.antt =====
-- The relay between a browser's runner and its viewers: relay/tunnel.py.
pub mod Stream
pub mod Tunnel
