-- ===== src/Client.antt =====
-- The clients of the task server: client/task.py.
pub mod Follow
