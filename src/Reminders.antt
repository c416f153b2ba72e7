-- ===== src/Reminders.antt =====
-- FEMA reminders: api/src/modules/reminders.
pub mod Sweep
pub mod Writes
pub mod Pushes
pub mod Once
pub mod Sweeps
mod Tests
