-- ===== src/Shell.antt =====
-- The shells: server/shell.py, and the worker's end of one, shell.py.
pub mod Stream
pub mod Server
pub mod Pump
