-- ===== src/Pool.antt =====
-- The task server: server/pool/*.py and the handlers of server/tasks.py.
pub mod Status
pub mod State
pub mod Queue
pub mod Auth
pub mod Tasks
pub mod Client
pub mod Views
pub mod Store
pub mod Keeper
pub mod World
pub mod Artifacts
