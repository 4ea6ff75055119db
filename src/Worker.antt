-- ===== src/Worker.antt =====
-- The worker: worker/__init__.py.
pub mod Spool
pub mod Serve
