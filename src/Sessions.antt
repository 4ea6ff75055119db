-- ===== src/Sessions.antt =====
-- The browser sessions: core/sessions.py, core/events.py and server/watchdog.py.
pub mod Rows
pub mod Publish
pub mod Lifecycle
pub mod Commands
pub mod Machine
pub mod Stream
pub mod Watch
