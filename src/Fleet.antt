-- ===== src/Fleet.antt =====
-- The runners' fleet: fleet/workers.py and fleet/runners.
pub mod Runs
pub mod Slots
pub mod Messages
pub mod Duty
pub mod Budget
pub mod Http
pub mod Controller
pub mod Teardown
